-- ===== src/Api/Threads/Joined.antt =====
-- What holds in each phase of the threads, and that mf_end joins every one of them.
use phantom_monitoring_clien.Base.{
  ℕ, zero, suc, ◌<◌, ◌≤◌, ◌≡◌, refl, sym, subst, ◌∙◌, inl, inr, List, [], ◌∷◌, some, Bool, true,
  false, get_elem?, set, length, length-set, length-append, All, arith, Bool-cases, ◌==◌,
}
use phantom_monitoring_clien.Api.Threads.{
  Thread, Move, Main, World, Step, Reach, starting, finished, creating, measuring, joining, ended,
  exited,
}

-- The first `t` threads are back from their loops.
abbrev pub AreJoined : ℕ → List Thread → Type 0
AreJoined t threads = (k : ℕ) → k < t → get_elem? threads k ≡ some finished

-- What holds in each phase.
abbrev pub Holds : ℕ → Main → World → Type 0
Holds n (creating t) w = (w.running ≡ true) × (length w.threads ≡ t) × (t ≤ n)
Holds n measuring w = (w.running ≡ true) × (length w.threads ≡ n)
Holds n (joining t) w =
    (w.running ≡ false) × (length w.threads ≡ n) × (t ≤ n) × AreJoined t w.threads
Holds n ended w = (w.running ≡ false) × (length w.threads ≡ n) × AreJoined n w.threads
Holds n exited w = w.threads ≡ []

abbrev is_finished : Thread → Bool
is_finished finished = true
is_finished _ = false

Move-unfinished : {running : Bool} {x y : Thread} → Move running x y → is_finished x ≡ false
Move-unfinished Move.opens = refl
Move-unfinished Move.refuses = refl
Move-unfinished (Move.goes_on e) = refl
Move-unfinished (Move.stops e) = refl
Move-unfinished Move.comes_round = refl

-- A step of one thread leaves those that are back where they are.
finished_stays :
    (xs : List Thread) (i k : ℕ) (x y : Thread)
    → get_elem? xs i ≡ some x
    → is_finished x ≡ false
    → get_elem? xs k ≡ some finished
    → get_elem? (set xs i y) k ≡ some finished
finished_stays [] i k x y at unfinished back = cc
finished_stays (a ∷ xs) zero zero x y at unfinished back = absurd (grind arith)
finished_stays (a ∷ xs) zero (suc k) x y at unfinished back = back
finished_stays (a ∷ xs) (suc i) zero x y at unfinished back = back
finished_stays (a ∷ xs) (suc i) (suc k) x y at unfinished back =
    finished_stays xs i k x y at unfinished back

AreJoined-set :
    (t : ℕ) (xs : List Thread) (i : ℕ) {running : Bool} (x y : Thread)
    → get_elem? xs i ≡ some x
    → Move running x y
    → AreJoined t xs
    → AreJoined t (set xs i y)
AreJoined-set t xs i x y at m joined k lt =
    finished_stays xs i k x y at (Move-unfinished m) (joined k lt)

Holds-thread :
    (n : ℕ) (main : Main) (w : World) (i : ℕ) (x y : Thread)
    → get_elem? w.threads i ≡ some x
    → Move w.running x y
    → Holds n main w
    → Holds n main (record w { threads = set w.threads i y })
Holds-thread n (creating t) w i x y e m (r, l, le) = (r, length-set w.threads i y ∙ l, le)
Holds-thread n measuring w i x y e m (r, l) = (r, length-set w.threads i y ∙ l)
Holds-thread n (joining t) w i x y e m (r, l, le, j) =
    (r, length-set w.threads i y ∙ l, le, AreJoined-set t w.threads i x y e m j)
Holds-thread n ended w i x y e m (r, l, j) =
    (r, length-set w.threads i y ∙ l, AreJoined-set n w.threads i x y e m j)
Holds-thread n exited w i x y e m nil = rw nil refl

AreJoined-suc :
    (t : ℕ) (xs : List Thread)
    → AreJoined t xs
    → get_elem? xs t ≡ some finished
    → AreJoined (suc t) xs
AreJoined-suc t xs joined back k lt = elim (Bool-cases (k == t)) [
  | inl last ↦ let same : k ≡ t = ground arith in rw same back
  | inr earlier ↦ joined k (ground arith)
]

pub now : (n : ℕ) (w : World) {main : Main} → w.main ≡ main → Holds n w.main w → Holds n main w
now n w e h = subst (λ p. Holds n p w) e h

pub Holds-step : (n : ℕ) (w v : World) → Holds n w.main w → Step n w v → Holds n v.main v
Holds-step n w v h (Step.thread_moves i x y at m) = Holds-thread n w.main w i x y at m h
Holds-step n w v h (Step.thread_exits i x at reads) = refl
Holds-step n w v h (Step.create t at lt) =
    let (r, l, le) = now n w at h in
    (r, omega (arith, length-append w.threads (starting ∷ [])), omega arith)
Holds-step n w v h (Step.start_returns at) = let (r, l, le) = now n w at h in (r, l)
Holds-step n w v h (Step.end_called at) =
    let (r, l) = now n w at h in (refl, l, omega arith, λ k lt. absurd (omega arith))
Holds-step n w v h (Step.join t at lt back) =
    let (r, l, le, joined) = now n w at h in
    (r, l, omega arith, AreJoined-suc t w.threads joined back)
Holds-step n w v h (Step.end_returns at) = let (r, l, le, joined) = now n w at h in (r, l, joined)

pub Holds-Reach : (n : ℕ) (w : World) → Reach n w → Holds n w.main w
Holds-Reach n w Reach.start = (refl, refl, omega arith)
Holds-Reach n w (Reach.next {v} reach last) = Holds-step n v w (Holds-Reach n v reach) last

abbrev pub IsFinished : Thread → Type 0
IsFinished x = x ≡ finished

AreJoined-All : (xs : List Thread) → AreJoined (length xs) xs → All IsFinished xs
AreJoined-All [] joined = tt
AreJoined-All (x ∷ xs) joined =
    let first : some x ≡ some finished = joined 0 (omega arith) in
    (cc, AreJoined-All xs (λ k lt. joined (suc k) (omega arith)))

-- However the threads are interleaved: where mf_end has returned and the process has not exited, all
-- of the n threads that mf_start created are back from their loops.
pub Reach-joined :
    (n : ℕ) (w : World)
    → Reach n w
    → w.main ≡ ended
    → (length w.threads ≡ n) × All IsFinished w.threads
Reach-joined n w reach e =
    let (r, l, joined) = now n w e (Holds-Reach n w reach) in
    (l, AreJoined-All w.threads (subst (λ t. AreJoined t w.threads) (sym l) joined))
