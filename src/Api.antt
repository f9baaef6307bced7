-- ===== src/Api.antt =====
-- src/api/src: the library that a monitored application links. Each metric has a monitor, a loop on a
-- thread of its own, that appends a line to a file in each round (Disk, Resources and Power); mf_start
-- and mf_end begin and end them (Session), mf_send publishes the files (Send).
use phantom_monitoring_clien.Base.{ℕ, List, [], ◌∷◌, ◌++◌, Option, Bytes, codes}
use phantom_monitoring_clien.Base.Float.{FloatOps}
pub mod ProcStat
pub mod Disk
pub mod Resources
pub mod Power
pub mod Parameters
pub mod Threads
pub mod Session
pub mod Send
mod Examples
mod SessionExamples

-- `struct timespec`
pub record Clock : Type 0 where
  pub tv_sec : ℕ
  pub tv_nsec : ℕ

module _ (fl : FloatOps) where
  open fl use {Double, of_nat, literal, add, mul, div}

  unfoldable pub timestamp_ms : Clock → Double
  timestamp_ms c =
      add (mul (of_nat c.tv_sec) (literal 1000 0)) (div (of_nat c.tv_nsec) (literal 1000000 0))

-- `, "name":text`
unfoldable pub log_field : Bytes → Bytes → Bytes
log_field name text = codes ", \"" ++ name ++ codes "\":" ++ text

-- `"local_timestamp":"text"`
unfoldable pub log_time : Bytes → Bytes
log_time text = codes "\"local_timestamp\":\"" ++ text ++ codes "\""

-- `sprintf(FileName, "%s/%s", DataPath, name)`
unfoldable pub file_in : Bytes → Bytes → Bytes
file_in data_path name = data_path ++ codes "/" ++ name
