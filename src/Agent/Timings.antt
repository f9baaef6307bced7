-- ===== src/Agent/Timings.antt =====
-- `init_timings` and `checkConf` of src/agent/thread_handler.c: the sampling interval of each
-- plugin, read from the configuration again and again.
pub mod Intervals
use phantom_monitoring_clien.Base.{
  ℕ, zero, suc, ◌+◌, ◌%◌, ◌≡◌, List, [], ◌∷◌, Option, none, some, Bool, true, false, not, Bytes,
  codes, if◌then◌else◌, leb, ◌==◌, ℤ, strtol,
}
use phantom_monitoring_clien.Parser.Hash.{HashTable}
use phantom_monitoring_clien.Parser.{Parser, IniResult, mfp_get_value, mfp_parse}

-- `struct timespec`
pub record Timespec : Type 0 where
  pub tv_sec : ℕ
  pub tv_nsec : ℤ

-- `timings[i]` and `sleep_tims[i]` of one plugin; both arrays start as zeros.
pub record Timing : Type 0 where
  pub interval : ℤ
  pub sleep_tim : Timespec

-- 10e8 in the source.
abbrev pub nanos : ℕ
nanos = 1000000000

abbrev pub at_least_a_second : ℤ → Bool
at_least_a_second (ℤ.pos n) = leb nanos n
at_least_a_second (ℤ.negsuc n) = false

abbrev pub magnitude : ℤ → ℕ
magnitude (ℤ.pos n) = n
magnitude (ℤ.negsuc n) = suc n

abbrev pub is_empty : Bytes → Bool
is_empty [] = true
is_empty (c ∷ s) = false

unfoldable pub timing_value : (h : HashTable) → Parser h → Bytes → Bytes
timing_value h config key = mfp_get_value h config (codes "timings") key []

-- `seconds n` is what the conversion of the double n / 10e8 to an integer gives.
module _ (seconds : ℕ → ℕ) where
  unfoldable pub timespec_of : ℤ → Timespec
  timespec_of t =
      if at_least_a_second t
      then record { tv_sec = seconds (magnitude t); tv_nsec = ℤ.pos (magnitude t % nanos) }
      else record { tv_sec = 0; tv_nsec = t }

  -- One round of the loop: the value configured for the plugin decides.
  unfoldable pub update_timing : ℤ → Bytes → Timing → Timing
  unfolding timespec_of
  update_timing default_timing value s =
      if is_empty value
      then record s { interval = default_timing }
      else record { interval = strtol value; sleep_tim = timespec_of (strtol value) }

  module _ (h : HashTable) where
    time_plugin : Parser h → ℤ → Option Bytes → Timing → Timing
    time_plugin config default_timing none s = s
    time_plugin config default_timing (some name) s =
        update_timing default_timing (timing_value h config name) s

    -- The rounds from `i` on, `k` of them.
    unfoldable pub time_plugins :
        Parser h → ℤ → (ℕ → Option Bytes) → ℕ → ℕ → (ℕ → Timing) → ℕ → Timing
    unfolding time_plugin
    time_plugins config default_timing names i zero s = s
    time_plugins config default_timing names i (suc k) s =
        time_plugins config default_timing names (suc i) k
          (λ j. if j == i then time_plugin config default_timing (names i) (s i) else s j)

    unfoldable pub init_timings : Parser h → (ℕ → Option Bytes) → ℕ → (ℕ → Timing) → ℕ → Timing
    init_timings config names plugin_count s =
        time_plugins config (strtol (timing_value h config (codes "default"))) names 0 plugin_count
          s

    -- One round of `checkConf`: how long it sleeps, and the configuration and timings after it.
    unfoldable pub check_conf_round :
        (ℕ → Option Bytes) → ℕ → IniResult → (ℕ → Timing) → ℤ × Parser h × (ℕ → Timing)
    check_conf_round names plugin_count file s =
        let config = (mfp_parse h file).0 in
        (
          strtol (timing_value h config (codes "update_configuration")),
          config,
          init_timings config names plugin_count s,
        )

    -- The rounds until the agent stops, with what the file held in each.
    unfoldable pub check_conf : (ℕ → Option Bytes) → ℕ → List IniResult → (ℕ → Timing) → ℕ → Timing
    unfolding check_conf_round
    check_conf names plugin_count [] s = s
    check_conf names plugin_count (file ∷ files) s =
        check_conf names plugin_count files (check_conf_round names plugin_count file s).2
