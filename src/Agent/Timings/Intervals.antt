-- ===== src/Agent/Timings/Intervals.antt =====
-- The intervals that the threads sleep.
use phantom_monitoring_clien.Base.{
  ℕ, zero, suc, ◌+◌, ◌*◌, ◌/◌, ◌%◌, ◌^◌, ◌<◌, ◌≤◌, ◌≡◌, refl, ap, ◌∙◌, [], Option, none, some,
  false, Bytes, codes, leb, ltb, ◌==◌, ℤ, strtol, arith, Bool-cases, inl, inr,
}
use phantom_monitoring_clien.Parser.Hash.{HashTable}
use phantom_monitoring_clien.Parser.{Parser, IniResult, mfp_parse}
use phantom_monitoring_clien.Parser.Values.{last_value, mfp_parse-last_value}
use phantom_monitoring_clien.Agent.Timings.{
  Timespec, Timing, nanos, magnitude, is_empty, timespec_of, update_timing, timing_value,
  time_plugin, time_plugins, init_timings, check_conf_round,
}

strtol-nil : strtol [] ≡ ℤ.pos 0
unfolding strtol
strtol-nil = refl

-- The double quotient is exact enough up to 2^53: IEEE division is correctly rounded.
abbrev pub IsQuotient : (ℕ → ℕ) → Type 0
IsQuotient seconds = (n : ℕ) → n < 2 ^ 53 → seconds n ≡ n / nanos

-- The nanoseconds of an interval with whole seconds and a nonnegative rest.
abbrev pub total_nanos : Timespec → ℕ
total_nanos t = t.tv_sec * nanos + magnitude t.tv_nsec

-- An interval as nanosleep takes it.
abbrev pub IsValidTimespec : Timespec → Type 0
IsValidTimespec t = (n : ℕ) × (t.tv_nsec ≡ ℤ.pos n) × (n < nanos)

module _ (seconds : ℕ → ℕ) where
  timespec_of-total :
      (n : ℕ)
      → IsQuotient seconds
      → n < 2 ^ 53
      → (total_nanos (timespec_of seconds (ℤ.pos n)) ≡ n)
        × IsValidTimespec (timespec_of seconds (ℤ.pos n))
  unfolding timespec_of
  timespec_of-total n exact small = elim (Bool-cases (leb nanos n)) [
    | inl long ↦ rw long (omega (arith, exact n small), (n % nanos, refl, omega arith))
    | inr short ↦ rw short (omega arith, (n, refl, ground arith))
  ]

  module _ (h : HashTable) (config : Parser h) (default_timing : ℤ) (names : ℕ → Option Bytes) where
    time_plugins-before :
        (i k : ℕ) (s : ℕ → Timing) (j : ℕ)
        → j < i
        → time_plugins seconds h config default_timing names i k s j ≡ s j
    unfolding time_plugins
    time_plugins-before i zero s j lt = refl
    time_plugins-before i (suc k) s j lt =
        time_plugins-before (suc i) k _ j (omega arith) ∙ ground arith

    time_plugins-at :
        (i k : ℕ) (s : ℕ → Timing) (j : ℕ)
        → i ≤ j
        → j < i + k
        → time_plugins seconds h config default_timing names i k s j
          ≡ time_plugin seconds h config default_timing (names j) (s j)
    unfolding time_plugins
    time_plugins-at i zero s j le lt = absurd (omega arith)
    time_plugins-at i (suc k) s j le lt = elim (Bool-cases (j == i)) [
      | inl here ↦
          time_plugins-before (suc i) k _ j (ground arith)
          ∙ rw here (let e : j ≡ i = ground arith in rw e refl)
      | inr later ↦ time_plugins-at (suc i) k _ j (ground arith) (omega arith) ∙ rw later
    ]

    time_plugins-beyond :
        (i k : ℕ) (s : ℕ → Timing) (j : ℕ)
        → i + k ≤ j
        → time_plugins seconds h config default_timing names i k s j ≡ s j
    unfolding time_plugins
    time_plugins-beyond i zero s j le = refl
    time_plugins-beyond i (suc k) s j le =
        time_plugins-beyond (suc i) k _ j (omega arith) ∙ ground arith

  -- A plugin whose interval is configured sleeps exactly that many nanoseconds, split into whole
  -- seconds and fewer than 10^9 nanoseconds, for intervals from 0 to 2^53 - 1.
  pub init_timings-configured :
      (h : HashTable) (config : Parser h) (names : ℕ → Option Bytes) (plugin_count j n : ℕ)
      (name : Bytes) (s : ℕ → Timing)
      → IsQuotient seconds
      → j < plugin_count
      → names j ≡ some name
      → is_empty (timing_value h config name) ≡ false
      → strtol (timing_value h config name) ≡ ℤ.pos n
      → n < 2 ^ 53
      → let t = init_timings seconds h config names plugin_count s j in
        (t.interval ≡ ℤ.pos n) × (total_nanos t.sleep_tim ≡ n) × IsValidTimespec t.sleep_tim
  unfolding init_timings
  init_timings-configured h config names plugin_count j n name s exact lt named given value small =
      rw
        (
          time_plugins-at h config (strtol (timing_value h config (codes "default"))) names 0
              plugin_count s j (omega arith) (omega arith),
          named,
        )
        (unfold time_plugin update_timing in
          rw (given, value)
            (refl, (timespec_of-total n exact small).0, (timespec_of-total n exact small).1))

  -- A loaded plugin that has no entry in the section `timings` keeps the sleep that it had, whatever
  -- the default is; its entry in `timings` is set to the default.
  pub init_timings-default :
      (h : HashTable) (config : Parser h) (names : ℕ → Option Bytes) (plugin_count j : ℕ)
      (name : Bytes) (s : ℕ → Timing)
      → j < plugin_count
      → names j ≡ some name
      → timing_value h config name ≡ []
      → let t = init_timings seconds h config names plugin_count s j in
        (t.sleep_tim ≡ (s j).sleep_tim)
        × (t.interval ≡ strtol (timing_value h config (codes "default")))
  unfolding init_timings
  init_timings-default h config names plugin_count j name s lt named missing =
      rw
        (
          time_plugins-at h config (strtol (timing_value h config (codes "default"))) names 0
              plugin_count s j (omega arith) (omega arith),
          named,
        )
        (unfold time_plugin update_timing in rw missing (refl, refl))

  time_plugin-unset :
      (h : HashTable) (config : Parser h) (d : ℤ) (o : Option Bytes) (s : Timing)
      → ((key : Bytes) → timing_value h config key ≡ [])
      → (time_plugin seconds h config d o s).sleep_tim ≡ s.sleep_tim
  unfolding time_plugin update_timing
  time_plugin-unset h config d none s e = refl
  time_plugin-unset h config d (some name) s e = rw (e name) refl

  init_timings-unset :
      (h : HashTable) (config : Parser h) (names : ℕ → Option Bytes) (plugin_count : ℕ)
      (s : ℕ → Timing) (j : ℕ)
      → ((key : Bytes) → timing_value h config key ≡ [])
      → (init_timings seconds h config names plugin_count s j).sleep_tim ≡ (s j).sleep_tim
  unfolding init_timings
  init_timings-unset h config names plugin_count s j e = elim (Bool-cases (ltb j plugin_count)) [
    | inl inside ↦
        rw
          (time_plugins-at h config (strtol (timing_value h config (codes "default"))) names 0
            plugin_count s j (omega arith) (ground arith))
          (time_plugin-unset h config (strtol (timing_value h config (codes "default"))) (names j)
            (s j) e)
    | inr outside ↦
        rw
          (time_plugins-beyond h config (strtol (timing_value h config (codes "default"))) names 0
            plugin_count s j (ground arith))
          refl
  ]

  -- A round of `checkConf` over a file that gives no setting, because it cannot be read or is empty,
  -- does not sleep, forgets every configured interval and leaves the sleeps as they were.
  pub check_conf_round-unreadable :
      (h : HashTable) (names : ℕ → Option Bytes) (plugin_count : ℕ) (file : IniResult)
      (s : ℕ → Timing) (j : ℕ)
      → file.calls ≡ []
      → let r = check_conf_round seconds h names plugin_count file s in
        (r.0 ≡ ℤ.pos 0)
        × ((key : Bytes) → timing_value h r.1 key ≡ [])
        × ((r.2 j).sleep_tim ≡ (s j).sleep_tim)
  unfolding check_conf_round
  check_conf_round-unreadable h names plugin_count file s j empty =
      (ap strtol (nothing (codes "update_configuration")) ∙ strtol-nil, nothing, kept)
    where
      nothing : (key : Bytes) → timing_value h (mfp_parse h file).0 key ≡ []
      nothing key =
          unfold timing_value in
          ((mfp_parse-last_value h file (codes "timings") key []).0
            ∙ ap (last_value (codes "timings") key []) empty)

      kept :
          (init_timings seconds h (mfp_parse h file).0 names plugin_count s j).sleep_tim
          ≡ (s j).sleep_tim
      kept = init_timings-unset h (mfp_parse h file).0 names plugin_count s j nothing
