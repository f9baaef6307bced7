-- ===== src/Plugins.antt =====
-- src/plugins: the plugins of the agent. Each has a connector, which samples a source of metrics, and
-- a plugin file, which registers a hook that samples and formats.
pub mod Metrics
pub mod Fill
pub mod ProcFs
pub mod IoTotal
pub mod LinuxResources
pub mod SysPower
pub mod Examples
mod PowerExamples
pub mod Registration
mod HookExamples
mod CpuExamples
pub mod Nvml
pub mod BoardPower
pub mod RaplPower
pub mod CpuTemperature
pub mod Partial
mod NvmlExamples
mod BoardExamples
mod RaplExamples
mod TemperatureExamples
