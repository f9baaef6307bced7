-- ===== src/Api/Power/Increments.antt =====
-- Which rounds of power_monitor log a line, and over which increments.
use phantom_monitoring_clien.Base.{
  ℕ, ◌+◌, ◌%◌, ◌-◌, ◌<◌, ◌≡◌, refl, ◌∙◌, List, [], ◌∷◌, none, some, Bool, true, false, ◌&&◌, ◌||◌,
  Bytes, if◌then◌else◌, ltb, leb, map, sub64, sub64-eq, u64_mod, All, arith, Bool-cases, inl, inr,
}
use phantom_monitoring_clien.Base.Float.{FloatOps}
use phantom_monitoring_clien.Api.Power.Readers.{PidStats, read_and_check}
use phantom_monitoring_clien.Api.Power.{
  Ending, Round, calcualte_and_update, duration, powers, power_text, conclude, power_rounds,
}

module _ (fl : FloatOps) where
  open fl use {Double, sub, single}

  -- The increments, without wrap-around for the two counters that are compared.
  abbrev pub increments : PidStats fl → PidStats fl → PidStats fl
  increments before after = record {
    sys_itv = after.sys_itv - before.sys_itv;
    sys_runtime = after.sys_runtime - before.sys_runtime;
    pid_runtime = sub64 after.pid_runtime before.pid_runtime;
    pid_read_bytes = sub64 after.pid_read_bytes before.pid_read_bytes;
    pid_write_bytes = sub64 after.pid_write_bytes before.pid_write_bytes;
    pid_cancelled_writes = sub64 after.pid_cancelled_writes before.pid_cancelled_writes;
    pid_l2_cache_misses = sub64 after.pid_l2_cache_misses before.pid_l2_cache_misses;
    sys_cpu_energy = single (sub after.sys_cpu_energy before.sys_cpu_energy);
  }

  abbrev pub grows : PidStats fl → PidStats fl → Bool
  grows before after = ltb before.sys_itv after.sys_itv && ltb before.sys_runtime after.sys_runtime

  abbrev pub Read : Type 0
  Read = Round fl × PidStats fl

  -- The rounds in which both counters have grown since the last such round, with the increments since.
  abbrev pub accepted : List Read → PidStats fl → List Read
  accepted [] before = []
  accepted ((r, after) ∷ reads) before =
      let next = accepted reads after in
      let same = accepted reads before in
      if grows before after then (r, increments before after) ∷ next else same

  -- The statistics of the last such round.
  abbrev pub last_accepted : List Read → PidStats fl → PidStats fl
  last_accepted [] before = before
  last_accepted ((r, after) ∷ reads) before =
      let next = last_accepted reads after in
      let same = last_accepted reads before in if grows before after then next else same

  abbrev pub total_in : (PidStats fl → ℕ) → List Read → ℕ
  total_in part [] = 0
  total_in part (x ∷ xs) = part x.1 + total_in part xs

  abbrev pub InRange : PidStats fl → Type 0
  InRange s = (s.sys_itv < u64_mod) × (s.sys_runtime < u64_mod)

  -- The counters of the process are numbers of 64 bits.
  abbrev pub IsProcess : PidStats fl → Type 0
  IsProcess s =
      (s.pid_runtime < u64_mod)
      × (s.pid_read_bytes < u64_mod)
      × (s.pid_write_bytes < u64_mod)
      × (s.pid_cancelled_writes < u64_mod)
      × (s.pid_l2_cache_misses < u64_mod)

  -- What is logged of a counter, added to its value at the start, gives its last value modulo 2^64.
  abbrev pub AddsUp : (PidStats fl → ℕ) → List Read → PidStats fl → PidStats fl → Type 0
  AddsUp part logged before last =
      (total_in part logged + part before) % u64_mod ≡ part last % u64_mod

  -- Every round reads what stands with it, on top of what the round before has left.
  abbrev pub IsRead : (ℕ → Double) → List Read → PidStats fl → Type 0
  IsRead parameters_value [] after = Unit
  IsRead parameters_value ((r, after') ∷ reads) after =
      (read_and_check fl parameters_value r.reading after ≡ some (true, after'))
      × IsRead parameters_value reads after'

  abbrev pub line_of : (ℕ → Double) → Read → Bytes
  line_of parameters_value (r, delta) =
      power_text fl r.timestamp_after
        (powers fl parameters_value delta (duration fl r.timestamp_before r.timestamp_after))

  calcualte_and_update-grows :
      (before after : PidStats fl)
      → InRange after
      → calcualte_and_update fl before after
        ≡ (if grows before after then some (increments before after, after) else none)
  unfolding calcualte_and_update
  calcualte_and_update-grows before after (itv, runtime) = elim (Bool-cases (grows before after)) [
    | inl more ↦
        let i : before.sys_itv < after.sys_itv = ground arith in
        let r : before.sys_runtime < after.sys_runtime = ground arith in
        let test : (leb after.sys_itv before.sys_itv || leb after.sys_runtime before.sys_runtime)
            ≡ false =
          ground arith in
        rw
          (
            more,
            test,
            sub64-eq after.sys_itv before.sys_itv (omega arith) itv,
            sub64-eq after.sys_runtime before.sys_runtime (omega arith) runtime,
          )
          refl
    | inr less ↦
        let test : (leb after.sys_itv before.sys_itv || leb after.sys_runtime before.sys_runtime)
            ≡ true =
          ground arith in
        rw (less, test) refl
  ]

  accepted-totals :
      (reads : List Read) (before : PidStats fl)
      → (total_in (λ d. d.sys_itv) (accepted reads before) + before.sys_itv
          ≡ (last_accepted reads before).sys_itv)
        × (total_in (λ d. d.sys_runtime) (accepted reads before) + before.sys_runtime
            ≡ (last_accepted reads before).sys_runtime)
  accepted-totals [] before = (omega arith, omega arith)
  accepted-totals ((r, after) ∷ reads) before = elim (Bool-cases (grows before after)) [
    | inl more ↦
        let i : before.sys_itv < after.sys_itv = ground arith in
        let r : before.sys_runtime < after.sys_runtime = ground arith in
        let (itv, runtime) = accepted-totals reads after in rw more (omega arith, omega arith)
    | inr less ↦ rw less (accepted-totals reads before)
  ]

  sum_step :
      (before after total last : ℕ)
      → before < u64_mod
      → (total + after) % u64_mod ≡ last % u64_mod
      → (sub64 after before + total + before) % u64_mod ≡ last % u64_mod
  unfolding sub64
  sum_step before after total last fits e = omega arith

  accepted-AddsUp :
      (part : PidStats fl → ℕ) (reads : List Read) (before : PidStats fl)
      → ((b a : PidStats fl) → part (increments b a) ≡ sub64 (part a) (part b))
      → ((t : PidStats fl) → IsProcess t → part t < u64_mod)
      → IsProcess before
      → All (λ x. IsProcess x.1) reads
      → AddsUp part (accepted reads before) before (last_accepted reads before)
  accepted-AddsUp part [] before law bound now fits = omega arith
  accepted-AddsUp part ((r, after) ∷ reads) before law bound now (fit, fits) =
      elim (Bool-cases (grows before after)) [
        | inl more ↦
            rw (more, law before after)
              (sum_step (part before) (part after) _ _ (bound before now)
                (accepted-AddsUp part reads after law bound fit fits))
        | inr less ↦ rw less (accepted-AddsUp part reads before law bound now fits)
      ]

  power_rounds-cons :
      (parameters_value : ℕ → Double) (r : Round fl) (rs : List (Round fl))
      (before after after' : PidStats fl)
      → read_and_check fl parameters_value r.reading after ≡ some (true, after')
      → InRange after'
      → power_rounds fl parameters_value (r ∷ rs) before after ≡ (
          if grows before after'
          then (
            line_of parameters_value (r, increments before after')
                ∷ (power_rounds fl parameters_value rs after' after').0,
            (power_rounds fl parameters_value rs after' after').1,
          )
          else power_rounds fl parameters_value rs before after')
  unfolding power_rounds conclude
  power_rounds-cons parameters_value r rs before after after' e fits =
      elim (Bool-cases (grows before after')) [
        | inl more ↦
            rw (power_rounds, e, conclude, calcualte_and_update-grows before after' fits, more) refl
        | inr less ↦
            rw (power_rounds, e, conclude, calcualte_and_update-grows before after' fits, less) refl
      ]

  power_rounds-nil :
      (parameters_value : ℕ → Double) (before after : PidStats fl)
      → power_rounds fl parameters_value [] before after ≡ ([], Ending.returned)
  unfolding power_rounds
  power_rounds-nil parameters_value before after = refl

  power_rounds-lines :
      (parameters_value : ℕ → Double) (reads : List Read) (before after : PidStats fl)
      → IsRead parameters_value reads after
      → All (λ x. InRange x.1) reads
      → power_rounds fl parameters_value (map (λ x. x.0) reads) before after
        ≡ (map (line_of parameters_value) (accepted reads before), Ending.returned)
  power_rounds-lines parameters_value [] before after read fits =
      power_rounds-nil parameters_value before after
  power_rounds-lines parameters_value ((r, after') ∷ reads) before after (e, read) (fit, fits) =
      let rs = map (λ x. x.0) reads in
      power_rounds-cons parameters_value r rs before after after' e fit
      ∙ elim (Bool-cases (grows before after')) [
        | inl more ↦
            rw (more, power_rounds-lines parameters_value reads after' after' read fits) refl
        | inr less ↦
            rw (less, power_rounds-lines parameters_value reads before after' read fits) refl
      ]

-- When every round of power_monitor reads all its counters, and those of the system fit 64 bits, a
-- line is logged for exactly the rounds in which the system's time and its running time have both grown
-- since the last such round. The line is computed from the increments since that last one, but from the
-- time that this one round took. The increments of the system's two times that are so logged add up to
-- their growth between the start and the last such round, and, where the process's counters are numbers
-- of 64 bits, so do those of its running time, of the bytes read and written, of the cancelled writes
-- and of the cache misses, modulo 2^64.
pub power_rounds-accepted :
    (fl : FloatOps) (parameters_value : ℕ → fl.Double) (reads : List (Read fl))
    (before after : PidStats fl)
    → IsRead fl parameters_value reads after
    → All (λ x. InRange fl x.1) reads
    → IsProcess fl before
    → All (λ x. IsProcess fl x.1) reads
    → let logged = accepted fl reads before in
      let last = last_accepted fl reads before in
      (power_rounds fl parameters_value (map (λ x. x.0) reads) before after
        ≡ (map (line_of fl parameters_value) logged, Ending.returned))
      × (total_in fl (λ d. d.sys_itv) logged + before.sys_itv ≡ last.sys_itv)
      × (total_in fl (λ d. d.sys_runtime) logged + before.sys_runtime ≡ last.sys_runtime)
      × AddsUp fl (λ d. d.pid_runtime) logged before last
      × AddsUp fl (λ d. d.pid_read_bytes) logged before last
      × AddsUp fl (λ d. d.pid_write_bytes) logged before last
      × AddsUp fl (λ d. d.pid_cancelled_writes) logged before last
      × AddsUp fl (λ d. d.pid_l2_cache_misses) logged before last
power_rounds-accepted fl parameters_value reads before after read fits now counts = (
  power_rounds-lines fl parameters_value reads before after read fits,
  (accepted-totals fl reads before).0,
  (accepted-totals fl reads before).1,
  accepted-AddsUp fl (λ d. d.pid_runtime) reads before (λ b a. refl) (λ t w. w.0) now counts,
  accepted-AddsUp fl (λ d. d.pid_read_bytes) reads before (λ b a. refl) (λ t w. w.1) now counts,
  accepted-AddsUp fl (λ d. d.pid_write_bytes) reads before (λ b a. refl) (λ t w. w.2) now counts,
  accepted-AddsUp fl (λ d. d.pid_cancelled_writes) reads before (λ b a. refl) (λ t w. w.3) now
      counts,
  accepted-AddsUp fl (λ d. d.pid_l2_cache_misses) reads before (λ b a. refl) (λ t w. w.4) now
      counts,
)
