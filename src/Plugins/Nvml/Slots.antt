-- ===== src/Plugins/Nvml/Slots.antt =====
-- Which slots the loop over the devices fills.
use phantom_monitoring_clien.Base.{
  ℕ, zero, suc, ◌+◌, ◌*◌, ◌<◌, ◌≤◌, ◌≡◌, refl, ap, ◌∙◌, List, [], ◌∷◌, none, some, length, get_or,
  if◌then◌else◌, ◌==◌, ltb, leb, lt→ltb, arith, Bool-cases, inl, inr,
}
use phantom_monitoring_clien.Plugins.Nvml.{store, store_all, store_devices}

module _ {V : Type 0} (default : V) where
  -- From slot `k` on there are the values `vs`, and the slots before are as they were.
  abbrev Holds : (ℕ → V) → (ℕ → V) → ℕ → List V → Type 0
  Holds old a k vs =
      ((j : ℕ) → j < k → a j ≡ old j) × ((j : ℕ) → j < length vs → a (k + j) ≡ get_or vs j default)

  store-room :
      (k : ℕ) (v : V) (a : ℕ → V) → k < 32 → store k v a ≡ some (λ j. if j == k then v else a j)
  unfolding store
  store-room k v a lt = rw (lt→ltb k 32 lt) refl

  values_first :
      (b : ℕ → V) (k : ℕ) (v : V) (vs : List V)
      → b k ≡ v
      → ((j : ℕ) → j < length vs → b (suc k + j) ≡ get_or vs j default)
      → (j : ℕ) → j < suc (length vs)
      → b (k + j) ≡ get_or (v ∷ vs) j default
  values_first b k v vs first rest zero lt = ap b (omega arith) ∙ first
  values_first b k v vs first rest (suc j) lt = ap b (omega arith) ∙ rest j (omega arith)

  store_all-Holds :
      (vs : List V) (k : ℕ) (a : ℕ → V)
      → k + length vs ≤ 32
      → (b : ℕ → V) × (store_all k vs a ≡ some b) × Holds a b k vs
  unfolding store_all
  store_all-Holds [] k a room = (a, refl, ((λ j lt. refl), λ j lt. absurd (omega arith)))
  store_all-Holds (v ∷ vs) k a room =
      let a' : ℕ → V = λ j. if j == k then v else a j in
      let (b, stored, (before, values)) = store_all-Holds vs (suc k) a' (omega arith) in
      (
        b,
        rw (store-room k v a (omega arith)) stored,
        (
          (λ j lt. before j (omega arith) ∙ ground arith),
          values_first b k v vs (before k (omega arith) ∙ ground arith) values,
        ),
      )

  devices_first :
      (f : ℕ → List V) (i k n : ℕ) (b : ℕ → V)
      → ((j : ℕ) → j < 7 → b (k + j) ≡ get_or (f i) j default)
      → ((d j : ℕ) → d < n → j < 7 → b (k + 7 + 7 * d + j) ≡ get_or (f (suc i + d)) j default)
      → (d j : ℕ) → d < suc n
      → j < 7
      → b (k + 7 * d + j) ≡ get_or (f (i + d)) j default
  devices_first f i k n b first rest zero j ld lj =
      ap b (omega arith) ∙ first j lj ∙ ap (λ x. get_or (f x) j default) (omega arith)
  devices_first f i k n b first rest (suc d) j ld lj =
      ap b (omega arith)
      ∙ rest d j (omega arith) lj
      ∙ ap (λ x. get_or (f x) j default) (omega arith)

  pub store_devices-Holds :
      (f : ℕ → List V) (i n k : ℕ) (a : ℕ → V)
      → ((d : ℕ) → length (f d) ≡ 7)
      → k + 7 * n ≤ 32
      → (b : ℕ → V) × (store_devices f i n k a ≡ some b)
        × (((j : ℕ) → j < k → b j ≡ a j)
            × ((d j : ℕ) → d < n → j < 7 → b (k + 7 * d + j) ≡ get_or (f (i + d)) j default))
  unfolding store_devices
  store_devices-Holds f i zero k a seven room =
      (a, refl, ((λ j lt. refl), λ d j lt. absurd (omega arith)))
  store_devices-Holds f i (suc n) k a seven room =
      let len = seven i in
      let (m, first, (kept, here)) = store_all-Holds (f i) k a (omega arith) in
      let (b, rest, (before, later)) =
        store_devices-Holds f (suc i) n (k + 7) m seven (omega arith) in
      (
        b,
        rw first rest,
        (
          (λ j lt. before j (omega arith) ∙ kept j lt),
          devices_first f i k n b (λ j lt. before (k + j) (omega arith) ∙ here j (omega arith))
              later,
        ),
      )

  store_all_overflow :
      (vs : List V) (k : ℕ) (a : ℕ → V) → k ≤ 32 → 32 < k + length vs → store_all k vs a ≡ none
  unfolding store_all store
  store_all_overflow [] k a le over = absurd (omega arith)
  store_all_overflow (v ∷ vs) k a le over = elim (Bool-cases (ltb k 32)) [
    | inl inside ↦ rw inside (store_all_overflow vs (suc k) _ (ground arith) (omega arith))
    | inr outside ↦ rw outside refl
  ]

  pub store_devices_overflow :
      (f : ℕ → List V) (i n k : ℕ) (a : ℕ → V)
      → ((d : ℕ) → length (f d) ≡ 7)
      → k ≤ 32
      → 32 < k + 7 * n
      → store_devices f i n k a ≡ none
  unfolding store_devices
  store_devices_overflow f i zero k a seven le over = absurd (omega arith)
  store_devices_overflow f i (suc n) k a seven le over =
      let len = seven i in
      elim (Bool-cases (leb (k + 7) 32)) [
        | inl inside ↦
            let (m, first, held) = store_all-Holds (f i) k a (ground arith) in
            rw first
              (store_devices_overflow f (suc i) n (k + 7) m seven (ground arith) (omega arith))
        | inr outside ↦ rw (store_all_overflow (f i) k a le (ground arith)) refl
      ]
