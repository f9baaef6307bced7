-- ===== src/Plugins/LinuxResources/Cpu.antt =====
-- What `CPU_stat_read` and the rate of `mf_Linux_resources_sample` make of the first line of /proc/stat.
use phantom_monitoring_clien.Base.{
  ℕ, ◌+◌, ◌-◌, ◌<◌, ◌≤◌, ◌≡◌, refl, ◌∙◌, List, [], ◌∷◌, none, some, Bytes, if◌then◌else◌, ltb, drop,
  add64, sub64, add64-eq, sub64-eq, u64_mod, scan_fields, arith,
}
use phantom_monitoring_clien.Base.Float.{FloatOps}
use phantom_monitoring_clien.Plugins.LinuxResources.{CpuStats, cpu_stat_read}
use phantom_monitoring_clien.Plugins.LinuxResources.Sample.{cpu_usage_rate}

-- The eight numbers of the line.
pub record Ticks : Type 0 where
  pub user : ℕ
  pub nice : ℕ
  pub sys : ℕ
  pub idle : ℕ
  pub iowait : ℕ
  pub irq : ℕ
  pub softirq : ℕ
  pub steal : ℕ

abbrev pub fields_of : Ticks → List ℕ
fields_of t = t.user ∷ t.nice ∷ t.sys ∷ t.idle ∷ t.iowait ∷ t.irq ∷ t.softirq ∷ t.steal ∷ []

abbrev pub busy : Ticks → ℕ
busy t = t.user + t.nice + t.sys + t.irq + t.softirq + t.steal

abbrev pub waiting : Ticks → ℕ
waiting t = t.idle + t.iowait

-- The line gives these numbers, and their sum is below 2^64.
abbrev pub Gives : Bytes → Ticks → Type 0
Gives line t = (scan_fields 8 (drop 5 line) ≡ fields_of t) × (busy t + waiting t < u64_mod)

total-eq :
    (a b c d e f g h : ℕ)
    → a + b + c + d + e + f + g + h < u64_mod
    → add64 (add64 (add64 (add64 (add64 (add64 (add64 a b) c) d) e) f) g) h
      ≡ a + b + c + d + e + f + g + h
total-eq a b c d e f g h lt =
    rw
      (
        add64-eq a b (omega arith),
        add64-eq (a + b) c (omega arith),
        add64-eq (a + b + c) d (omega arith),
        add64-eq (a + b + c + d) e (omega arith),
        add64-eq (a + b + c + d + e) f (omega arith),
        add64-eq (a + b + c + d + e + f) g (omega arith),
        add64-eq (a + b + c + d + e + f + g) h lt,
      )
      refl

cpu_stat_read-Gives :
    (junk : List ℕ) (line : Bytes) (lines : List Bytes) (old : CpuStats) (t : Ticks)
    → Gives line t
    → let r = (cpu_stat_read junk (some (line ∷ lines)) old).1 in
      (r.total_cpu_time ≡ busy t + waiting t) × (r.total_idle_time ≡ waiting t)
unfolding cpu_stat_read
cpu_stat_read-Gives junk line lines old t (e, lt) = rw e (
  total-eq t.user t.nice t.sys t.idle t.iowait t.irq t.softirq t.steal (omega arith) ∙ omega arith,
  add64-eq t.idle t.iowait (omega arith),
)

-- Between two reads of /proc/stat whose first lines give numbers with sums below 2^64, where neither
-- the busy nor the waiting time decreases, the CPU usage is the busy time as a percentage of busy and
-- waiting time together, all taken over the interval; there is no progress if no time has passed.
pub cpu_usage_rate-cpu_stat_read :
    (fl : FloatOps) (junk junk' : List ℕ) (line line' : Bytes) (lines lines' : List Bytes)
    (s s' : CpuStats) (t t' : Ticks)
    → Gives line t
    → Gives line' t'
    → busy t ≤ busy t'
    → waiting t ≤ waiting t'
    → let before = (cpu_stat_read junk (some (line ∷ lines)) s).1 in
      let after = (cpu_stat_read junk' (some (line' ∷ lines')) s').1 in
      let worked = busy t' - busy t in
      let passed = worked + (waiting t' - waiting t) in
      cpu_usage_rate fl before after ≡ (
        if ltb 0 passed
        then some
            (fl.single (fl.div (fl.mul (fl.of_nat worked) (fl.literal 100 0)) (fl.of_nat passed)))
        else none)
unfolding cpu_usage_rate
cpu_usage_rate-cpu_stat_read fl junk junk' line line' lines lines' s s' t t' g g' more later =
    let (b, bi) = cpu_stat_read-Gives junk line lines s t g in
    let (a, ai) = cpu_stat_read-Gives junk' line' lines' s' t' g' in
    let total : sub64 (busy t' + waiting t') (busy t + waiting t)
        ≡ busy t' - busy t + (waiting t' - waiting t) =
      sub64-eq _ _ (omega arith) (omega arith) ∙ omega arith in
    let idle : sub64 (waiting t') (waiting t) ≡ waiting t' - waiting t =
      sub64-eq _ _ later (omega arith) in
    let used : sub64 (busy t' - busy t + (waiting t' - waiting t)) (waiting t' - waiting t)
        ≡ busy t' - busy t =
      sub64-eq _ _ (omega arith) (omega arith) ∙ omega arith in
    let grows : ltb (busy t + waiting t) (busy t' + waiting t')
        ≡ ltb 0 (busy t' - busy t + (waiting t' - waiting t)) =
      ground arith in
    rw (b, bi, a, ai, total, idle, used, grows) refl
