-- ===== src/Api/Resources.antt =====
-- src/api/src/resources_monitor.c: the usage of CPU, memory and swap of the process, round by round. A
-- file that does not open ends the whole process by exit(0): `none`. An uninitialised local starts as
-- a parameter.
use phantom_monitoring_clien.Base.{
  ℕ, zero, suc, ◌+◌, ◌^◌, ◌≤◌, ◌<◌, ◌≡◌, refl, List, [], ◌∷◌, ◌++◌, Option, none, some, Bool, true,
  false, ◌||◌, Bytes, codes, if◌then◌else◌, leb, drop, get_or, add64, sub64, starts_with,
  scan_fields, ◌>>=◌, map,
}
use phantom_monitoring_clien.Base.Float.{FloatOps}
use phantom_monitoring_clien.Plugins.ProcFs.{File, scan_into}
use phantom_monitoring_clien.Api.ProcStat.{pid_time}
use phantom_monitoring_clien.Api.{Clock, timestamp_ms, log_field, log_time, file_in}
pub mod Sizes
pub mod Usage

pub record CpuTimes : Type 0 where
  pub process_cpu_time : ℕ
  pub global_cpu_time : ℕ

-- What a round reads, and what the locals of its functions hold before.
pub record Round : Type 0 where
  pub pid_stat : File
  pub stat : File
  pub pid_status : File
  pub meminfo : File
  pub clock : Clock
  pub time_junk : ℕ × ℕ
  pub cpu_junk : ℕ × ℕ
  pub vm_junk : ℕ × ℕ
  pub total_junk : ℕ × ℕ

-- cpu_user + cpu_sys of /proc/stat.
unfoldable pub global_time : ℕ × ℕ → List Bytes → ℕ
global_time junk [] = add64 junk.0 junk.1
global_time junk (line ∷ lines) =
    let fields = scan_fields 8 (drop 5 line) in
    add64 (get_or fields 0 junk.0) (get_or fields 2 junk.1)

unfoldable pub resources_stat_cpu : Round → Option CpuTimes
resources_stat_cpu r = r.pid_stat >>= λ pid_lines. r.stat >>= λ lines. some (record {
  process_cpu_time = pid_time r.time_junk pid_lines;
  global_cpu_time = global_time r.cpu_junk lines;
})

-- The loop over a file of sizes, for the two keys that it looks for.
unfoldable pub size_lines : Bytes × ℕ → Bytes × ℕ → List Bytes → ℕ × ℕ → ℕ × ℕ
size_lines k l [] v = v
size_lines k l (line ∷ lines) v = size_lines k l lines (
  if starts_with k.0 line then scan_into (drop k.1 line) v.0 else v.0,
  if starts_with l.0 line then scan_into (drop l.1 line) v.1 else v.1,
)

unfoldable pub vm_sizes : List Bytes → ℕ × ℕ → ℕ × ℕ
vm_sizes lines junk = size_lines (codes "VmRSS:", 6) (codes "VmSwap:", 7) lines junk

unfoldable pub total_sizes : List Bytes → ℕ × ℕ → ℕ × ℕ
total_sizes lines junk = size_lines (codes "MemTotal:", 9) (codes "SwapTotal:", 10) lines junk

module _ (fl : FloatOps) where
  open fl use {Double, of_nat, literal, mul, div, single, print_1, print_3}

  pub record ResourcesStats : Type 0 where
    pub cpu_usage_rate : Double
    pub ram_usage_rate : Double
    pub swap_usage_rate : Double

  -- `part * 100.0 / whole`, stored in a float.
  unfoldable pub percent : ℕ → ℕ → Double
  percent part whole = single (div (mul (of_nat part) (literal 100 0)) (of_nat whole))

  unfoldable pub cpu_usage : CpuTimes → CpuTimes → Double
  cpu_usage before after =
      if leb after.process_cpu_time before.process_cpu_time
        || leb after.global_cpu_time before.global_cpu_time
      then single (literal 0 0)
      else percent (sub64 after.process_cpu_time before.process_cpu_time)
          (sub64 after.global_cpu_time before.global_cpu_time)

  -- The results, and the values of before.
  unfoldable pub resources_stat_all_and_calculate :
      Round → CpuTimes → CpuTimes → Option (ResourcesStats × CpuTimes)
  resources_stat_all_and_calculate r before after = r.pid_status >>= λ status.
      r.meminfo >>= λ meminfo. some (
        record {
          cpu_usage_rate = cpu_usage before after;
          ram_usage_rate =
              percent (vm_sizes status r.vm_junk).0 (total_sizes meminfo r.total_junk).0;
          swap_usage_rate =
              percent (vm_sizes status r.vm_junk).1 (total_sizes meminfo r.total_junk).1;
        },
        after,
      )

  unfoldable pub resources_text : Clock → ResourcesStats → Bytes
  resources_text clock s =
      log_time (print_1 (timestamp_ms fl clock))
      ++ log_field (codes "CPU_usage_rate") (print_3 s.cpu_usage_rate)
      ++ log_field (codes "RAM_usage_rate") (print_3 s.ram_usage_rate)
      ++ log_field (codes "swap_usage_rate") (print_3 s.swap_usage_rate)
      ++ codes "\n"

  unfoldable pub resources_round : Round → CpuTimes → Option (Bytes × CpuTimes)
  resources_round r before = resources_stat_cpu r >>= λ after.
      resources_stat_all_and_calculate r before after >>= λ s.
      some (resources_text r.clock s.0, s.1)

  -- The lines, and whether the loop ended by `running`; an exit in a round ends the lines.
  unfoldable pub resources_rounds : List Round → CpuTimes → List Bytes × Bool
  unfolding resources_round
  resources_rounds [] before = ([], true)
  resources_rounds (r ∷ rs) before = elim (resources_round r before) [
    | none ↦ ([], false)
    | some (line, before') ↦ let rest = resources_rounds rs before' in (line ∷ rest.0, rest.1)
  ]

  -- The lines that it appends to its file, and whether it returned or ended the process.
  unfoldable pub resources_monitor : (Bytes → Bool) → Bytes → Round → List Round → List Bytes × Bool
  resources_monitor opens data_path first rounds =
      if opens (file_in data_path (codes "resources_usage"))
      then elim (resources_stat_cpu first) [
        | none ↦ ([], false)
        | some before ↦ resources_rounds rounds before
      ]
      else ([], false)
