-- ===== src/Api/Resources/Usage.antt =====
-- A round of resources_monitor over files as the kernel prints them.
use phantom_monitoring_clien.Base.{
  ℕ, ℤ, ◌+◌, ◌-◌, ◌<◌, ◌≤◌, ◌≡◌, refl, sym, subst, ◌||◌, ap, ◌∙◌, List, [], ◌∷◌, ◌++◌, some, false,
  Bytes, codes, is_space, length, get_or, drop, All, starts_with, scan_fields, u64_mod, arith,
  add64-eq, sub64-eq, if◌then◌else◌, leb, Bool-cases, inl, inr,
}
use phantom_monitoring_clien.Base.Float.{FloatOps}
use phantom_monitoring_clien.Base.Numeral.Decimal.{
  decimal, first_digit, FitsWord, spaced, Fits, scan_fields-spaced, scan_fields-spaces,
}
use phantom_monitoring_clien.Api.{Clock}
use phantom_monitoring_clien.Api.ProcStat.{
  stat_text, stat_numbers, HasNoSpace, pid_time-stat_text, get_or_inside,
}
use phantom_monitoring_clien.Api.Resources.{
  CpuTimes, Round, ResourcesStats, global_time, resources_stat_cpu, percent, cpu_usage, vm_sizes,
  total_sizes, resources_stat_all_and_calculate, resources_text, resources_round,
}
use phantom_monitoring_clien.Api.Resources.Sizes.{
  sizes_text, Padding, IsOther, size_lines-sizes_text,
}

-- What the kernel knows of the process and the machine, and how it lays the lines out.
pub record Shown : Type 0 where
  pub pid : ℕ
  pub name : Bytes
  pub state : ℕ
  pub stat_front : List ℤ
  pub times : ℕ × ℕ
  pub stat_rest : Bytes
  pub cpu : List ℕ
  pub cpu_rest : Bytes
  pub vm : ℕ × ℕ
  pub totals : ℕ × ℕ
  pub vm_pads : Bytes × Bytes
  pub total_pads : Bytes × Bytes
  pub status_lines : List Bytes × List Bytes × List Bytes
  pub meminfo_lines : List Bytes × List Bytes × List Bytes
  pub stat_lines : List Bytes

abbrev pub cpu_text : List ℕ → Bytes → Bytes
cpu_text cpu rest = codes "cpu " ++ (spaced cpu ++ rest)

abbrev pub round_of : Shown → Clock → ℕ × ℕ → ℕ × ℕ → ℕ × ℕ → ℕ × ℕ → Round
round_of s clock time_junk cpu_junk vm_junk total_junk = record {
  pid_stat =
      some (stat_text s.pid s.name s.state (stat_numbers s.stat_front s.times) s.stat_rest ∷ []);
  stat = some (cpu_text s.cpu s.cpu_rest ∷ s.stat_lines);
  pid_status = some (
      sizes_text (codes "VmRSS:") (codes "VmSwap:") s.vm_pads s.vm s.status_lines.0 s.status_lines.1
        s.status_lines.2);
  meminfo = some (
      sizes_text (codes "MemTotal:") (codes "SwapTotal:") s.total_pads s.totals s.meminfo_lines.0
        s.meminfo_lines.1 s.meminfo_lines.2);
  clock = clock;
  time_junk = time_junk;
  cpu_junk = cpu_junk;
  vm_junk = vm_junk;
  total_junk = total_junk;
}

abbrev pub IsShown : Shown → Type 0
IsShown s =
    ((s.pid < u64_mod) × HasNoSpace s.name × (is_space s.state ≡ false))
    × ((length s.stat_front ≡ 10)
        × All FitsWord (stat_numbers s.stat_front s.times)
        × (first_digit s.stat_rest ≡ false)
        × (s.times.0 + s.times.1 < u64_mod))
    × ((length s.cpu ≡ 8)
        × All Fits s.cpu
        × (first_digit s.cpu_rest ≡ false)
        × (get_or s.cpu 0 0 + get_or s.cpu 2 0 < u64_mod))
    × ((Padding s.vm_pads.0 × Padding s.vm_pads.1 × Padding s.total_pads.0 × Padding s.total_pads.1)
        × (s.vm.0 < u64_mod)
        × (s.vm.1 < u64_mod)
        × (s.totals.0 < u64_mod)
        × (s.totals.1 < u64_mod))
    × (All (IsOther (codes "VmRSS:") (codes "VmSwap:")) s.status_lines.0
        × All (IsOther (codes "VmRSS:") (codes "VmSwap:")) s.status_lines.1
        × All (IsOther (codes "VmRSS:") (codes "VmSwap:")) s.status_lines.2)
    × (All (IsOther (codes "MemTotal:") (codes "SwapTotal:")) s.meminfo_lines.0
        × All (IsOther (codes "MemTotal:") (codes "SwapTotal:")) s.meminfo_lines.1
        × All (IsOther (codes "MemTotal:") (codes "SwapTotal:")) s.meminfo_lines.2)

-- The ticks of the process (user and system), and of the CPUs.
abbrev pub ticks : Shown → CpuTimes
ticks s = record {
  process_cpu_time = s.times.0 + s.times.1;
  global_cpu_time = get_or s.cpu 0 0 + get_or s.cpu 2 0;
}

cpu_text-fields :
    (cpu : List ℕ) (rest : Bytes)
    → length cpu ≡ 8
    → All Fits cpu
    → first_digit rest ≡ false
    → scan_fields 8 (drop 5 (cpu_text cpu rest)) ≡ cpu
cpu_text-fields [] rest eight fits stop = absurd (omega arith)
cpu_text-fields (u ∷ cpu) rest eight fits stop =
    sym (scan_fields-spaces 8 (b' ' ∷ []) ((decimal u ++ spaced cpu) ++ rest) (refl, tt))
    ∙ subst (λ k. scan_fields k (spaced (u ∷ cpu) ++ rest) ≡ u ∷ cpu) eight
        (scan_fields-spaced (u ∷ cpu) rest fits stop)

global_time-cpu_text :
    (junk : ℕ × ℕ) (cpu : List ℕ) (rest : Bytes) (lines : List Bytes)
    → length cpu ≡ 8
    → All Fits cpu
    → first_digit rest ≡ false
    → get_or cpu 0 0 + get_or cpu 2 0 < u64_mod
    → global_time junk (cpu_text cpu rest ∷ lines) ≡ get_or cpu 0 0 + get_or cpu 2 0
unfolding global_time
global_time-cpu_text junk cpu rest lines eight fits stop no_wrap =
    rw
      (
        global_time,
        cpu_text-fields cpu rest eight fits stop,
        get_or_inside cpu 0 junk.0 0 (omega arith),
        get_or_inside cpu 2 junk.1 0 (omega arith),
      )
      (add64-eq _ _ no_wrap)

resources_stat_cpu-round_of :
    (s : Shown) (clock : Clock) (j k l m : ℕ × ℕ)
    → IsShown s
    → resources_stat_cpu (round_of s clock j k l m) ≡ some (ticks s)
unfolding resources_stat_cpu
resources_stat_cpu-round_of s clock j k l m
      (
        (pid, no_space, visible),
        (ten, small, stop, no_wrap),
        (eight, fits, stop', no_wrap'),
        _,
        _,
        _,
      ) =
    rw
      (
        pid_time-stat_text j s.pid s.name s.state s.stat_front s.times s.stat_rest [] pid no_space
            visible ten small stop no_wrap,
        global_time-cpu_text k s.cpu s.cpu_rest s.stat_lines eight fits stop' no_wrap',
      )
      refl

sizes-round_of :
    (s : Shown) (clock : Clock) (j k l m : ℕ × ℕ)
    → IsShown s
    → (vm_sizes
          (sizes_text
            (codes "VmRSS:")
            (codes "VmSwap:")
            s.vm_pads
            s.vm
            s.status_lines.0
            s.status_lines.1
            s.status_lines.2)
          l
        ≡ s.vm)
      × (total_sizes
            (sizes_text
              (codes "MemTotal:")
              (codes "SwapTotal:")
              s.total_pads
              s.totals
              s.meminfo_lines.0
              s.meminfo_lines.1
              s.meminfo_lines.2)
            m
          ≡ s.totals)
unfolding vm_sizes total_sizes starts_with
sizes-round_of s clock j k l m
      (_, _, _, ((vp, vq, tp, tq), v0, v1, t0, t1), (sf, sm, sb), (mf, mm, mb)) =
    (
      size_lines-sizes_text (codes "VmRSS:") (codes "VmSwap:") s.vm_pads s.vm l s.status_lines.0
          s.status_lines.1 s.status_lines.2 vp vq (λ x. refl, λ x. refl) v0 v1 sf sm sb,
      size_lines-sizes_text (codes "MemTotal:") (codes "SwapTotal:") s.total_pads s.totals m
          s.meminfo_lines.0 s.meminfo_lines.1 s.meminfo_lines.2 tp tq (λ x. refl, λ x. refl) t0 t1
          mf mm mb,
    )

-- The share of the process, without wrap-around.
abbrev pub cpu_share : (fl : FloatOps) → CpuTimes → CpuTimes → fl.Double
cpu_share fl before after =
    if leb after.process_cpu_time before.process_cpu_time
      || leb after.global_cpu_time before.global_cpu_time
    then fl.single (fl.literal 0 0)
    else percent fl (after.process_cpu_time - before.process_cpu_time)
        (after.global_cpu_time - before.global_cpu_time)

cpu_usage-cpu_share :
    (fl : FloatOps) (before after : CpuTimes)
    → after.process_cpu_time < u64_mod
    → after.global_cpu_time < u64_mod
    → cpu_usage fl before after ≡ cpu_share fl before after
unfolding cpu_usage
cpu_usage-cpu_share fl before after p g =
    elim (Bool-cases (
      leb after.process_cpu_time before.process_cpu_time
      || leb after.global_cpu_time before.global_cpu_time)) [
        | inl flat ↦ rw flat refl
        | inr grown ↦
            let le : before.process_cpu_time ≤ after.process_cpu_time = ground arith in
            let le' : before.global_cpu_time ≤ after.global_cpu_time = ground arith in
            rw (grown, sub64-eq _ _ le p, sub64-eq _ _ le' g) refl
      ]

-- The rates of a round, from the ticks before it and what the kernel shows.
abbrev pub rates : (fl : FloatOps) → CpuTimes → Shown → ResourcesStats fl
rates fl before s = record {
  cpu_usage_rate = cpu_share fl before (ticks s);
  ram_usage_rate = percent fl s.vm.0 s.totals.0;
  swap_usage_rate = percent fl s.vm.1 s.totals.1;
}

-- Over files as the kernel prints them, for a program whose name has no space: in /proc/[pid]/stat ten
-- numbers behind the state, of which some can be negative, the two times and any further text, in
-- /proc/stat a line with eight numbers and any further text, in the others the sizes in kB, each behind
-- any spaces, among other lines, all numbers of 64 bits. Then a round of resources_monitor logs for the CPU the share of the process's ticks in those of the CPUs
-- (user and system) since the round before, 0 if either did not grow, for memory and swap the shares
-- VmRSS of MemTotal and VmSwap of SwapTotal, each in percent, and keeps the ticks for the next round.
-- What the locals of its functions held does not count.
pub resources_round-shown :
    (fl : FloatOps) (before : CpuTimes) (s : Shown) (clock : Clock) (j k l m : ℕ × ℕ)
    → IsShown s
    → resources_round fl (round_of s clock j k l m) before
      ≡ some (resources_text fl clock (rates fl before s), ticks s)
unfolding resources_round resources_stat_all_and_calculate cpu_usage
resources_round-shown fl before s clock j k l m shown =
    let (vm, totals) = sizes-round_of s clock j k l m shown in
    rw (resources_stat_cpu-round_of s clock j k l m shown, vm, totals)
      (ap
        (λ c. some (
          resources_text fl clock (record {
            cpu_usage_rate = c;
            ram_usage_rate = percent fl s.vm.0 s.totals.0;
            swap_usage_rate = percent fl s.vm.1 s.totals.1;
          }),
          ticks s,
        ))
        (cpu_usage-cpu_share fl before (ticks s) shown.1.3 shown.2.3))
