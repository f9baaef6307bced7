-- ===== src/Agent.antt =====
-- src/agent: the monitoring agent. `main` reads the configuration, registers an experiment, loads
-- the plugins and runs a thread for each.
pub mod Manager
pub mod Discover
pub mod Hooks
pub mod Timings
pub mod Gather
pub mod Startup
pub mod Outcome
pub mod Examples
mod RunExamples
