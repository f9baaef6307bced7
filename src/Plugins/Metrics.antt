-- ===== src/Plugins/Metrics.antt =====
-- `Plugin_metrics` of src/plugins/utils/plugin_utils.h, and the flag words by which the connectors of
-- Linux_resources and Linux_sys_power remember which metrics were asked for. An array of C is a
-- function of the index.
use Prim.Native.Nat.{bit_or}
use phantom_monitoring_clien.Base.{
  ℕ, zero, suc, ◌+◌, ◌^◌, ◌<◌, ◌≤◌, ◌≡◌, refl, ◌∙◌, List, [], ◌∷◌, Bool, true, false, not, ◌&&◌,
  ◌||◌, Bytes, if◌then◌else◌, ◌==◌, str_eq, get_or, length, Option, some, none, has_flag,
  has_flag-set, set_bound, arith, Bool-cases, inl, inr,
}

abbrev pub max_events_number : ℕ
max_events_number = 32

pub record PluginMetrics (Value : Type 0) : Type 0 where
  pub events : ℕ → Bytes
  pub values : ℕ → Value
  pub num_events : ℕ

-- `if(b) { if(progress) a[i] = v; i++; }`, on an array and its index: `none` is no progress.
unfoldable pub put : {V : Type 0} → Bool → Option V → (ℕ → V) × ℕ → (ℕ → V) × ℕ
put b (some v) a = if b then (λ j. if j == a.1 then v else a.0 j, a.1 + 1) else a
put b none a = if b then (a.0, a.1 + 1) else a

-- Such statements in a row.
unfoldable pub fill : {V : Type 0} → List (Bool × Option V) → (ℕ → V) × ℕ → (ℕ → V) × ℕ
unfolding put
fill [] a = a
fill ((b, v) ∷ r) a = fill r (put b v a)

module _ (metrics : List Bytes) where
  -- The inner loop of `flag_init`, from metric `ii` on.
  unfoldable pub flag_event : List Bytes → ℕ → Bytes → ℕ → ℕ
  flag_event [] ii event flag = flag
  flag_event (m ∷ ms) ii event flag =
      flag_event ms (suc ii) event (if str_eq event m then bit_or flag (2 ^ ii) else flag)

  -- The outer loop, and the result: whether any metric was recognised.
  unfoldable pub flag_events : List Bytes → ℕ → ℕ
  unfolding flag_event
  flag_events [] flag = flag
  flag_events (e ∷ es) flag = flag_events es (flag_event metrics 0 e flag)

  unfoldable pub flag_init : List Bytes → ℕ → Bool × ℕ
  unfolding flag_events
  flag_init events flag = let f = flag_events events flag in (not (f == 0), f)

abbrev pub contains : List Bytes → Bytes → Bool
contains [] m = false
contains (e ∷ es) m = str_eq e m || contains es m

-- Whether the event is the metric numbered `j`, where the list starts at number `ii`.
abbrev names_metric : List Bytes → ℕ → Bytes → ℕ → Bool
names_metric [] ii event j = false
names_metric (m ∷ ms) ii event j = str_eq event m && ii == j || names_metric ms (suc ii) event j

-- Whether one of the events is metric `j`.
abbrev some_names : List Bytes → List Bytes → ℕ → Bool
some_names metrics [] j = false
some_names metrics (e ∷ es) j = names_metric metrics 0 e j || some_names metrics es j

no_flags : (j : ℕ) → j < 5 → has_flag 0 (2 ^ j) ≡ false
unfolding has_flag
no_flags zero lt = refl
no_flags (suc zero) lt = refl
no_flags (suc (suc zero)) lt = refl
no_flags (suc (suc (suc zero))) lt = refl
no_flags (suc (suc (suc (suc zero)))) lt = refl
no_flags j lt = absurd (omega arith)

flag_event-has :
    (metrics ms : List Bytes) (ii : ℕ) (event : Bytes) (flag j : ℕ)
    → flag < 32
    → ii + length ms ≤ 5
    → j < 5
    → (has_flag (flag_event metrics ms ii event flag) (2 ^ j)
        ≡ (has_flag flag (2 ^ j) || names_metric ms ii event j))
      × (flag_event metrics ms ii event flag < 32)
unfolding flag_event
flag_event-has metrics [] ii event flag j small short lt = (ground arith, small)
flag_event-has metrics (m ∷ ms) ii event flag j small short lt =
    elim (Bool-cases (str_eq event m)) [
      | inl hit ↦
          let (e, b) =
            flag_event-has metrics ms (suc ii) event (bit_or flag (2 ^ ii)) j
              (set_bound flag ii small (omega arith)) (omega arith) lt in
          rw hit (ground (arith, e, has_flag-set flag ii j small), b)
      | inr miss ↦ rw miss (flag_event-has metrics ms (suc ii) event flag j small (omega arith) lt)
    ]

flag_events-has :
    (metrics es : List Bytes) (flag j : ℕ)
    → flag < 32
    → length metrics ≤ 5
    → j < 5
    → (has_flag (flag_events metrics es flag) (2 ^ j)
        ≡ (has_flag flag (2 ^ j) || some_names metrics es j))
      × (flag_events metrics es flag < 32)
unfolding flag_events
flag_events-has metrics [] flag j small short lt = (ground arith, small)
flag_events-has metrics (e ∷ es) flag j small short lt =
    let (h, b) = flag_event-has metrics metrics 0 e flag j small (omega arith) lt in
    let (i, c) = flag_events-has metrics es (flag_event metrics metrics 0 e flag) j b short lt in
    (ground (arith, h, i), c)

names_metric-before :
    (ms : List Bytes) (ii : ℕ) (event : Bytes) (j : ℕ) → j < ii → names_metric ms ii event j ≡ false
names_metric-before [] ii event j lt = refl
names_metric-before (m ∷ ms) ii event j lt = ground (arith, names_metric-before ms (suc ii) event j)

names_metric-at :
    (ms : List Bytes) (ii : ℕ) (event : Bytes) (k j : ℕ)
    → k < length ms
    → j ≡ ii + k
    → names_metric ms ii event j ≡ str_eq event (get_or ms k [])
names_metric-at [] ii event k j lt e = absurd (omega arith)
names_metric-at (m ∷ ms) ii event zero j lt e =
    ground (arith, names_metric-before ms (suc ii) event j)
names_metric-at (m ∷ ms) ii event (suc k) j lt e =
    ground (arith, names_metric-at ms (suc ii) event k j)

some_names-contains :
    (metrics es : List Bytes) (k : ℕ)
    → k < length metrics
    → some_names metrics es k ≡ contains es (get_or metrics k [])
some_names-contains metrics [] k lt = refl
some_names-contains metrics (e ∷ es) k lt =
    ground
      (arith, names_metric-at metrics 0 e k k lt (omega arith), some_names-contains metrics es k lt)

-- With at most five metrics, `flag_init` sets bit k of the flags exactly when metric k is among the
-- events.
pub flag_init_lem :
    (metrics events : List Bytes) (k : ℕ)
    → length metrics ≤ 5
    → k < length metrics
    → has_flag (flag_init metrics events 0).1 (2 ^ k) ≡ contains events (get_or metrics k [])
unfolding flag_init
flag_init_lem metrics events k short lt =
    (flag_events-has metrics events 0 k (omega arith) short (omega arith)).0
    ∙ rw (no_flags k (omega arith)) (some_names-contains metrics events k lt)

-- Then `flag_init` succeeds, where it is asked for one of the metrics.
pub flag_init_some :
    (metrics events : List Bytes) (k : ℕ)
    → length metrics ≤ 5
    → k < length metrics
    → contains events (get_or metrics k []) ≡ true
    → (flag_init metrics events 0).0 ≡ true
unfolding flag_init
flag_init_some metrics events k short lt asked =
    let bit : has_flag (flag_events metrics events 0) (2 ^ k) ≡ true =
      flag_init_lem metrics events k short lt ∙ asked in
    let none_ : (flag_events metrics events 0 ≡ 0)
        → has_flag (flag_events metrics events 0) (2 ^ k) ≡ false =
      λ e. rw e (no_flags k (omega arith)) in
    ground (arith, bit, none_)
