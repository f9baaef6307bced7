-- ===== src/Api/Threads/Ending.antt =====
-- mf_end comes to an end under any schedule.
use phantom_monitoring_clien.Base.{
  ℕ, zero, suc, ◌+◌, ◌-◌, ◌*◌, ◌<◌, ◌≤◌, ◌≡◌, refl, subst, ◌∙◌, ◌⊎◌, inl, inr, List, [], ◌∷◌,
  Option, none, some, Bool, true, false, get_elem?, set, length, arith, Bool-cases, ltb, ltb→lt,
  ◌≢◌, ap,
}
use phantom_monitoring_clien.Api.Threads.{
  Thread, Move, Main, World, Reads, Step, Reach, Run, starting, testing, sampling, finished,
  creating, measuring, joining, ended, exited,
}
use phantom_monitoring_clien.Api.Threads.Joined.{Holds, Holds-Reach, Holds-step, now}

-- How many steps a thread still takes once `running` is cleared, at most.
abbrev weight : Thread → ℕ
weight starting = 3
weight sampling = 2
weight testing = 1
weight finished = 0

abbrev total : List Thread → ℕ
total [] = 0
total (x ∷ xs) = weight x + total xs

abbrev rest : ℕ → Main → ℕ
rest n (joining t) = n - t + 1
rest n _ = 0

abbrev measure : ℕ → World → ℕ
measure n w = total w.threads + rest n w.main

-- mf_end has been called.
abbrev is_stopping : Main → Bool
is_stopping (joining t) = true
is_stopping ended = true
is_stopping exited = true
is_stopping _ = false

abbrev pub is_over : Main → Bool
is_over ended = true
is_over exited = true
is_over _ = false

total-set :
    (xs : List Thread) (i : ℕ) (x y : Thread)
    → get_elem? xs i ≡ some x
    → total (set xs i y) + weight x ≡ total xs + weight y
total-set [] i x y at = cc
total-set (a ∷ xs) zero x y at = let same : a ≡ x = cc in rw same (omega arith)
total-set (a ∷ xs) (suc i) x y at = omega (arith, total-set xs i x y at)

Move-weight : {x y : Thread} → Move false x y → weight y < weight x
Move-weight Move.opens = omega arith
Move-weight Move.refuses = omega arith
Move-weight (Move.goes_on e) = cc
Move-weight (Move.stops e) = omega arith
Move-weight Move.comes_round = omega arith

total_bound : (xs : List Thread) → total xs ≤ 3 * length xs
total_bound [] = omega arith
total_bound (starting ∷ xs) = omega (arith, total_bound xs)
total_bound (sampling ∷ xs) = omega (arith, total_bound xs)
total_bound (testing ∷ xs) = omega (arith, total_bound xs)
total_bound (finished ∷ xs) = omega (arith, total_bound xs)

elem-inside : (xs : List Thread) (i : ℕ) (x : Thread) → get_elem? xs i ≡ some x → i < length xs
elem-inside [] i x at = cc
elem-inside (a ∷ xs) zero x at = omega arith
elem-inside (a ∷ xs) (suc i) x at = omega (arith, elem-inside xs i x at)

elem_there : (xs : List Thread) (t : ℕ) → t < length xs → get_elem? xs t ≢ none
elem_there [] t inside at = absurd (omega arith)
elem_there (x ∷ xs) zero inside at = cc
elem_there (x ∷ xs) (suc t) inside at = elem_there xs t (omega arith) at

weight_at : (xs : List Thread) (i : ℕ) (x : Thread) → get_elem? xs i ≡ some x → weight x ≤ total xs
weight_at [] i x at = cc
weight_at (a ∷ xs) zero x at = let same : a ≡ x = cc in rw same (omega arith)
weight_at (a ∷ xs) (suc i) x at = omega (arith, weight_at xs i x at)

Reads-weight : {x : Thread} → Reads x → 0 < weight x
Reads-weight Reads.first = omega arith
Reads-weight Reads.later = omega arith

stopping-running :
    (n : ℕ) (main : Main) (w : World) (i : ℕ) (x : Thread)
    → Holds n main w
    → is_stopping main ≡ true
    → get_elem? w.threads i ≡ some x
    → w.running ≡ false
stopping-running n (creating t) w i x h stopping at = cc
stopping-running n measuring w i x h stopping at = cc
stopping-running n (joining t) w i x h stopping at = h.0
stopping-running n ended w i x h stopping at = h.0
stopping-running n exited w i x h stopping at =
    let gone : get_elem? [] i ≡ some x = subst (λ xs. get_elem? xs i ≡ some x) h at in cc

-- A thread that still moves once `running` is cleared loses weight.
thread-measure :
    (n : ℕ) (w : World) (i : ℕ) (x y : Thread)
    → get_elem? w.threads i ≡ some x
    → Move w.running x y
    → Holds n w.main w
    → is_stopping w.main ≡ true
    → total (set w.threads i y) < total w.threads
thread-measure n w i x y at m h stopping =
    let slow : w.running ≡ false = stopping-running n w.main w i x h stopping at in
    omega (arith, total-set w.threads i x y at, Move-weight (subst (λ r. Move r x y) slow m))

Step-measure :
    (n : ℕ) (w v : World)
    → Holds n w.main w
    → is_stopping w.main ≡ true
    → Step n w v
    → (measure n v < measure n w) × (is_stopping v.main ≡ true)
Step-measure n w v h stopping (Step.thread_moves i x y at m) =
    let less = thread-measure n w i x y at m h stopping in (omega arith, stopping)
Step-measure n w v h stopping (Step.thread_exits i x at reads) =
    let heavy = weight_at w.threads i x at in
    let reading = Reads-weight reads in (omega arith, refl)
Step-measure n w v h stopping (Step.create t at lt) = absurd (grind arith)
Step-measure n w v h stopping (Step.start_returns at) = absurd (grind arith)
Step-measure n w v h stopping (Step.end_called at) = absurd (grind arith)
Step-measure n w v h stopping (Step.join t at lt back) = (rw at (omega arith), refl)
Step-measure n w v h stopping (Step.end_returns at) = (rw at (omega arith), refl)

Run-measure :
    (n : ℕ) (w v : World) (k : ℕ)
    → Holds n w.main w
    → is_stopping w.main ≡ true
    → Run n w k v
    → (k + measure n v ≤ measure n w) × (is_stopping v.main ≡ true) × Holds n v.main v
Run-measure n w v k h stopping Run.stay = (omega arith, stopping, h)
Run-measure n w v k h stopping (Run.step {u} j run last) =
    let (le, stop, held) = Run-measure n w u j h stopping run in
    let (less, stop') = Step-measure n u v held stop last in
    (omega arith, stop', Holds-step n u v held last)

-- The process goes on, as long as a thread or mf_end has something to do.
abbrev pub CanStep : ℕ → World → Type 0
CanStep n w = (v : World) × Step n w v

join_step :
    (n : ℕ) (w : World) (t : ℕ) (o : Option Thread)
    → w.main ≡ joining t
    → w.running ≡ false
    → t < n
    → t < length w.threads
    → get_elem? w.threads t ≡ o
    → CanStep n w
join_step n w t none e r lt inside at = absurd (elem_there w.threads t inside at)
join_step n w t (some starting) e r lt inside at =
    (_, Step.thread_moves t starting finished at Move.refuses)
join_step n w t (some testing) e r lt inside at =
    (_, Step.thread_moves t testing finished at (Move.stops r))
join_step n w t (some sampling) e r lt inside at =
    (_, Step.thread_moves t sampling testing at Move.comes_round)
join_step n w t (some finished) e r lt inside at = (_, Step.join t e lt at)

progress :
    (n : ℕ) (main : Main) (w : World)
    → w.main ≡ main
    → Holds n main w
    → is_stopping main ≡ true
    → (is_over main ≡ true) ⊎ CanStep n w
progress n (creating t) w e h stopping = cc
progress n measuring w e h stopping = cc
progress n (joining t) w e (r, l, le, joined) stopping = elim (Bool-cases (ltb t n)) [
  | inl more ↦
      inr (join_step n w t (get_elem? w.threads t) e r (ltb→lt t n more) (ground arith) refl)
  | inr all ↦ let same : t ≡ n = ground arith in inr (_, Step.end_returns (e ∙ ap joining same))
]
progress n ended w e h stopping = inl refl
progress n exited w e h stopping = inl refl

-- However the threads are scheduled: once mf_end has cleared `running`, at most 4n + 1 steps are left to
-- the n threads and mf_end together, and until mf_end has returned or a thread has ended the process
-- some step can be taken. So mf_end returns, or the process exits.
pub mf_end-is_over :
    (n t k : ℕ) (w v : World)
    → Reach n w
    → w.main ≡ joining t
    → Run n w k v
    → (k ≤ 4 * n + 1) × ((is_over v.main ≡ true) ⊎ CanStep n v)
mf_end-is_over n t k w v reach e run =
    let h = Holds-Reach n w reach in
    let (r, l, le, joined) = now n w e h in
    let (fewer, stop, held) = Run-measure n w v k h (rw e refl) run in
    let bound = total_bound w.threads in
    let start : rest n w.main ≡ n - t + 1 = rw e refl in
    (omega arith, progress n v.main v refl held stop)
