-- ===== src/Lib.antt =====
-- A model of the PHANTOM monitoring client: an agent that loads plugins, samples their metrics and
-- sends them as JSON over HTTP to a server, with the library that reads its configuration.
--
-- The parts and where they are modelled (paths from the repository's root):
--   * Base: C strings as lists of bytes, numbers as strtol and sscanf read them, 64-bit words with
--     their wrap-around, flag words, and the floating-point arithmetic as an interface without laws.
--   * Parser: src/parser/src/mf_parser.c. The static hash table is the record Parser; mfp_parse,
--     mfp_set_value, mfp_get_value and mfp_get_data_filtered_by_value keep their names. The hash
--     tables of APR are the interface HashTable of Parser/Hash, with the laws that its documentation
--     gives, and Parser/Assoc is an instance. What inih's ini_parse does is the list of its handler
--     calls and its result.
--   * Publisher: src/publisher/src/publisher.c. libcurl is the record Curl, which says by the number
--     of the call which handle opens and how each request ends; the record Net keeps the handles that
--     are open and the requests made. Publisher/Receive has the callback for an answer, and
--     Publisher/Lines publish_file.
--   * Agent: src/agent. Manager is plugin_manager.c over a queue (the interface ConcurrentQueue),
--     Discover plugin_discover.c over a dynamic linker (Linker), Hooks, Timings and Gather the parts of
--     thread_handler.c: which thread gets which hook, the intervals, and a thread's bulks of samples.
--     Startup is main.c.
--   * Plugins: src/plugins. Metrics and Fill are the arrays of names and values that every connector
--     fills, ProcFs and IoTotal the readers of /proc that two connectors share, LinuxResources and
--     SysPower their connectors, and Registration the plugin files, which are alike. A file is the list
--     of what fgets returns. Nvml, BoardPower, RaplPower and CpuTemperature are the
--     connectors of NVML, libiio, PAPI and lm-sensors, with the library as a parameter, and Partial
--     their plugin files.
--   * Api: src/api/src, the library that a monitored application links. Disk, Resources and Power are
--     disk_monitor.c, resources_monitor.c and power_monitor.c, each a loop over the rounds that a run
--     makes; Session, Parameters and Send are mf_start, get_config_parameters and mf_send of mf_api.c.
--     Threads has mf_start, mf_end and the monitors' threads as a step relation, in any interleaving.
--
-- They interact as in the code: the agent parses the configuration (Startup uses Parser and
-- Publisher), discovery runs the init functions of the plugins, which register hooks with the manager
-- (Registration meets the contract that Agent/Discover/Loaded states), the threads call the hooks and
-- publish what they return (Gather uses Publisher). Send and Parameters of Api use Publisher.
--
-- State is passed explicitly. Loops over lines, entries, samples and CPUs are recursions on lists or on
-- the number of rounds, so that they end; the loop of a thread, which the running flag alone ends, is
-- cut by fuel in gather_metric, and no theorem is about it. The loop of a RAPL sample runs on fuel too,
-- and num_events + 1 rounds are shown to be enough. A buffer is a text of any length but where a
-- theorem is about its size: the bulk of a thread and the arrays of the connectors in Partial, where
-- an overflow is `none`, the message of publish_file, and the 256 entries of mfp_data, which are lists
-- here and which the theorem about them bounds. A local that the code reads before it writes it starts as a parameter.
--
-- Not modelled: the connector CPU_perf, interleavings of the agent's threads, signals, logs, and the
-- freeing of memory. inih, CuTest and the queue are external libraries.
pub mod Base
pub mod Parser
pub mod Publisher
pub mod Agent
pub mod Plugins
pub mod Api
