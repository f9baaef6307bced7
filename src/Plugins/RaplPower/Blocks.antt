-- ===== src/Plugins/RaplPower/Blocks.antt =====
-- That the loop of the sample ends, and which value it stores for which socket.
use phantom_monitoring_clien.Base.{
  ℕ, zero, suc, ◌+◌, ◌<◌, ◌≤◌, ◌≡◌, refl, sym, ap, ap₂, ◌∙◌, List, [], ◌∷◌, ◌++◌, some, Bool, true,
  false, not, Bytes, codes, if◌then◌else◌, ◌==◌, ltb, length, arith, lt→ltb, subst, ◌>>=◌,
}
use phantom_monitoring_clien.Base.Float.{FloatOps}
use phantom_monitoring_clien.Plugins.Fill.{row}
use phantom_monitoring_clien.Plugins.Nvml.Store.{store_room}
use phantom_monitoring_clien.Plugins.RaplPower.{Globals}
use phantom_monitoring_clien.Plugins.RaplPower.Sample.{
  has_metric, Progress, completed, socket_loop, total_test, dram_test, sample_loop,
}

row-append : {V : Type 0} (a : ℕ → V) (i n m : ℕ) → row a i (n + m) ≡ row a i n ++ row a (i + n) m
row-append a i zero m =
    let e : i + 0 ≡ i = omega arith in let f : 0 + m ≡ m = omega arith in rw (e, f) refl
row-append a i (suc n) m =
    let e : suc n + m ≡ suc (n + m) = omega arith in
    let f : suc i + n ≡ i + suc n = omega arith in
    rw (e, sym f) (ap (λ l. a i ∷ l) (row-append a (suc i) n m))

row-same :
    {V : Type 0} (a b : ℕ → V) (i n : ℕ) → ((j : ℕ) → j < i + n → a j ≡ b j) → row a i n ≡ row b i n
row-same a b i zero same = refl
row-same a b i (suc n) same =
    ap₂ ◌∷◌ (same i (omega arith)) (row-same a b (suc i) n (λ j lt. same j (omega arith)))

-- The metric of a block of names: the package's energy, or that of its memory.
pub data Kind : Type 0 where
  total dram : Kind

abbrev pub is_total : Kind → Bool
is_total total = true
is_total dram = false

-- Blocks of `n` names from index `i` on, each beginning with a name of its metric. The name behind the
-- last block, which the code looks at, is of no memory.
abbrev pub Blocks : (ℕ → Bytes) → ℕ → List Kind → ℕ → Type 0
Blocks events n [] i = has_metric (events i) (codes "dram_power") ≡ false
Blocks events n (k ∷ ks) i =
    (has_metric (events i) (codes "total_power") ≡ is_total k)
    × (has_metric (events i) (codes "dram_power") ≡ not (is_total k))
    × Blocks events n ks (i + n)

-- How many names the blocks have.
abbrev pub size : ℕ → List Kind → ℕ
size n [] = 0
size n (k ∷ ks) = n + size n ks

module _ (fl : FloatOps) where
  open fl use {Double, sub, div, single}

  -- The powers of the sockets `j` to `j + n - 1`.
  abbrev pub socket_powers : (ℕ → Double) → (ℕ → Double) → Double → ℕ → ℕ → List Double
  socket_powers after before t zero j = []
  socket_powers after before t (suc n) j =
      single (div (single (sub (after j) (before j))) t) ∷ socket_powers after before t n (suc j)

  abbrev pub update : (ℕ → Double) → ℕ → (ℕ → Double) → ℕ → Double
  update after j before k = if k == j then after k else before k

  -- The energies of before, with those of the sockets `j` to `j + n - 1` caught up.
  abbrev pub caught_up : (ℕ → Double) → ℕ → ℕ → (ℕ → Double) → ℕ → Double
  caught_up after zero j before = before
  caught_up after (suc n) j before = caught_up after n (suc j) (update after j before)

  socket_powers-update :
      (after before : ℕ → Double) (t : Double) (n j k : ℕ)
      → k < j
      → socket_powers after (update after k before) t n j ≡ socket_powers after before t n j
  socket_powers-update after before t zero j k lt = refl
  socket_powers-update after before t (suc n) j k lt =
      let same : update after k before j ≡ before j = ground arith in
      ap₂ ◌∷◌ (ap (λ x. single (div (single (sub (after j) x)) t)) same)
        (socket_powers-update after before t n (suc j) k (omega arith))

  socket_loop-powers :
      (after : ℕ → Double) (t : Double) (n j i : ℕ) (values before : ℕ → Double)
      → i + n ≤ 32
      → (values' : ℕ → Double) × (socket_loop fl after t n j (values, i, before)
          ≡ some (values', i + n, caught_up after n j before))
        × ((k : ℕ) → k < i → values' k ≡ values k)
        × (row values' i n ≡ socket_powers after before t n j)
  unfolding socket_loop
  socket_loop-powers after t zero j i values before room =
      let e : i ≡ i + 0 = omega arith in
      (values, ap (λ k. some (values, k, before)) e, (λ k lt. refl), refl)
  socket_loop-powers after t (suc n) j i values before room =
      let v = single (div (single (sub (after j) (before j))) t) in
      let next : ℕ → Double = λ k. if k == i then v else values k in
      let (values', looped, below, here) =
        socket_loop-powers after t n (suc j) (suc i) next (update after j before) (omega arith) in
      let e : suc i + n ≡ i + suc n = omega arith in
      let first : next i ≡ v = ground arith in
      (
        values',
        rw (socket_loop, store_room i v values (omega arith))
            (looped ∙ ap (λ k. some (values', k, caught_up after (suc n) j before)) e),
        (λ k lt. below k (omega arith) ∙ ground arith),
        ap₂ ◌∷◌ (below i (omega arith) ∙ first)
            (here ∙ socket_powers-update after before t n (suc j) j (omega arith)),
      )

  -- What the blocks store: the powers since before, which then catches up.
  abbrev pub block_powers :
      Globals fl → Double → List Kind → (ℕ → Double) → (ℕ → Double) → List Double
  block_powers g t [] packages memory = []
  block_powers g t (total ∷ ks) packages memory =
      socket_powers g.epackage_after packages t g.num_sockets 0
      ++ block_powers g t ks (caught_up g.epackage_after g.num_sockets 0 packages) memory
  block_powers g t (dram ∷ ks) packages memory =
      socket_powers g.edram_after memory t g.num_sockets 0
      ++ block_powers g t ks packages (caught_up g.edram_after g.num_sockets 0 memory)

  -- Where a test stands after a block that it takes.
  abbrev pub Took : Progress fl → ℕ → (ℕ → Double) → List Double → Type 0
  Took p n values vs = ((k : ℕ) → k < p.i → values k ≡ p.values k) × (row values p.i n ≡ vs)

  total_test-takes :
      (g : Globals fl) (events : ℕ → Bytes) (t : Double) (p : Progress fl)
      → has_metric (events p.i) (codes "total_power") ≡ true
      → p.i + g.num_sockets ≤ 32
      → (values : ℕ → Double) × (let q : Progress fl = record {
        values = values;
        i = p.i + g.num_sockets;
        epackage_before = caught_up g.epackage_after g.num_sockets 0 p.epackage_before;
        edram_before = p.edram_before;
      } in
          (total_test fl g events t p ≡ some q)
          × Took p g.num_sockets values
              (socket_powers g.epackage_after p.epackage_before t g.num_sockets 0))
  unfolding total_test
  total_test-takes g events t p hit room =
      let (values, looped, below, here) =
        socket_loop-powers g.epackage_after t g.num_sockets 0 p.i p.values p.epackage_before room in
      (values, (rw (total_test, hit, looped) refl, (below, here)))

  dram_test-takes :
      (g : Globals fl) (events : ℕ → Bytes) (t : Double) (p : Progress fl)
      → has_metric (events p.i) (codes "dram_power") ≡ true
      → p.i + g.num_sockets ≤ 32
      → (values : ℕ → Double) × (let q : Progress fl = record {
        values = values;
        i = p.i + g.num_sockets;
        epackage_before = p.epackage_before;
        edram_before = caught_up g.edram_after g.num_sockets 0 p.edram_before;
      } in
          (dram_test fl g events t p ≡ some q)
          × Took p g.num_sockets values
              (socket_powers g.edram_after p.edram_before t g.num_sockets 0))
  unfolding dram_test
  dram_test-takes g events t p hit room =
      let (values, looped, below, here) =
        socket_loop-powers g.edram_after t g.num_sockets 0 p.i p.values p.edram_before room in
      (values, (rw (dram_test, hit, looped) refl, (below, here)))

  -- One stretch of the values after another.
  Took-join :
      (p q : Progress fl) (n m : ℕ) (values : ℕ → Double) (vs ws : List Double)
      → q.i ≡ p.i + n
      → Took p n q.values vs
      → Took q m values ws
      → Took p (n + m) values (vs ++ ws)
  Took-join p q n m values vs ws e (below, here) (below', here') = (
    (λ k lt. below' k (omega arith) ∙ below k lt),
    row-append values p.i n m
        ∙ ap₂ ◌++◌ (row-same values q.values p.i n (λ j lt. below' j (omega arith)) ∙ here)
            (subst (λ k. row values k m ≡ ws) e here'),
  )

  module _ (g : Globals fl) (events : ℕ → Bytes) (num_events : ℕ) (t : Double) where
    -- The loop from `p` on, over the blocks `ks`.
    abbrev pub Ends : ℕ → Progress fl → List Kind → Type 0
    Ends fuel p ks =
        (q : Progress fl) × (sample_loop fl fuel g events num_events t p ≡ completed q)
        × Took p (size g.num_sockets ks) q.values
            (block_powers g t ks p.epackage_before p.edram_before)

    loop_step :
        (fuel : ℕ) (p q : Progress fl)
        → p.i < num_events
        → (total_test fl g events t p >>= dram_test fl g events t) ≡ some q
        → sample_loop fl (suc fuel) g events num_events t p
          ≡ sample_loop fl fuel g events num_events t q
    unfolding sample_loop
    loop_step fuel p q lt e =
        let more : ltb p.i num_events ≡ true = lt→ltb p.i num_events lt in
        rw (sample_loop, more, e) refl

    loop_end :
        (fuel : ℕ) (p : Progress fl)
        → p.i ≡ num_events
        → sample_loop fl (suc fuel) g events num_events t p ≡ completed p
    unfolding sample_loop
    loop_end fuel p e =
        let done : ltb p.i num_events ≡ false = ground arith in rw (sample_loop, done) refl

    total_test-skips :
        (p : Progress fl)
        → has_metric (events p.i) (codes "total_power") ≡ false
        → total_test fl g events t p ≡ some p
    unfolding total_test
    total_test-skips p no_total = rw (total_test, no_total) refl

    dram_test-skips :
        (p : Progress fl)
        → has_metric (events p.i) (codes "dram_power") ≡ false
        → dram_test fl g events t p ≡ some p
    unfolding dram_test
    dram_test-skips p no_dram = rw (dram_test, no_dram) refl

    -- The progress after a block of each metric.
    abbrev after_total : Progress fl → (ℕ → Double) → Progress fl
    after_total p values = record {
      values = values;
      i = p.i + g.num_sockets;
      epackage_before = caught_up g.epackage_after g.num_sockets 0 p.epackage_before;
      edram_before = p.edram_before;
    }

    abbrev after_dram : Progress fl → (ℕ → Double) → Progress fl
    after_dram p values = record {
      values = values;
      i = p.i + g.num_sockets;
      epackage_before = p.epackage_before;
      edram_before = caught_up g.edram_after g.num_sockets 0 p.edram_before;
    }

    pub loop-Ends :
        (fuel : ℕ) (ks : List Kind) (p : Progress fl)
        → length ks < fuel
        → 0 < g.num_sockets
        → Blocks events g.num_sockets ks p.i
        → p.i + size g.num_sockets ks ≡ num_events
        → num_events ≤ 32
        → Ends fuel p ks
    loop-Ends zero ks p enough some_ blocks all room = absurd (omega arith)
    loop-Ends (suc fuel) [] p enough some_ blocks all room =
        (p, loop_end fuel p (omega arith), ((λ k lt. refl), refl))
    loop-Ends (suc fuel) (dram ∷ ks) p enough some_ (no_total, is_dram, blocks) all room =
        let (values, (tested, took)) = dram_test-takes g events t p is_dram (omega arith) in
        let q = after_dram p values in
        let (r, done, rest) = loop-Ends fuel ks q (omega arith) some_ blocks (omega arith) room in
        let step : (total_test fl g events t p >>= dram_test fl g events t) ≡ some q =
          rw (total_test-skips p no_total) tested in
        (
          r,
          loop_step fuel p q (omega arith) step ∙ done,
          Took-join p q g.num_sockets (size g.num_sockets ks) r.values _ _ refl took rest,
        )
    loop-Ends (suc fuel) (total ∷ []) p enough some_ (hit, no_dram, stop) all room =
        let (values, (tested, took)) = total_test-takes g events t p hit (omega arith) in
        let q = after_total p values in
        let (r, done, rest) = loop-Ends fuel [] q (omega arith) some_ stop (omega arith) room in
        (
          r,
          loop_step fuel p q (omega arith) (rw tested (dram_test-skips q stop)) ∙ done,
          Took-join p q g.num_sockets 0 r.values _ _ refl took rest,
        )
    loop-Ends (suc fuel) (total ∷ total ∷ ks) p enough some_ (hit, no_dram, blocks) all room =
        let (values, (tested, took)) = total_test-takes g events t p hit (omega arith) in
        let q = after_total p values in
        let (r, done, rest) =
          loop-Ends fuel (total ∷ ks) q (omega arith) some_ blocks (omega arith) room in
        (
          r,
          loop_step fuel p q (omega arith) (rw tested (dram_test-skips q blocks.1)) ∙ done,
          Took-join p q g.num_sockets (size g.num_sockets (total ∷ ks)) r.values _ _ refl took rest,
        )
    loop-Ends (suc fuel) (total ∷ dram ∷ ks) p enough some_ (hit, no_dram, (_, is_dram, blocks)) all
          room =
        let (values, (tested, took)) = total_test-takes g events t p hit (omega arith) in
        let q = after_total p values in
        let (values', (tested', took')) = dram_test-takes g events t q is_dram (omega arith) in
        let q' = after_dram q values' in
        let (r, done, rest) = loop-Ends fuel ks q' (omega arith) some_ blocks (omega arith) room in
        let both =
          Took-join q q' g.num_sockets (size g.num_sockets ks) r.values _ _ refl took' rest in
        (
          r,
          loop_step fuel p q' (omega arith) (rw tested tested') ∙ done,
          Took-join p q g.num_sockets (size g.num_sockets (dram ∷ ks)) r.values _ _ refl took both,
        )
