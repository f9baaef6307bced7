-- ===== src/Plugins/Nvml/Store.antt =====
-- A store into the 32 slots of an array, and a row of stores.
use phantom_monitoring_clien.Base.{
  ℕ, suc, ◌+◌, ◌<◌, ◌≤◌, ◌≡◌, refl, sym, ap, ◌∙◌, List, [], ◌∷◌, none, some, false, if◌then◌else◌,
  ◌==◌, ltb, lt→ltb, ltb→lt, length, arith, Bool-cases, inl, inr, >>=-eq-some,
}
use phantom_monitoring_clien.Plugins.Nvml.{store, store_all}

pub store_room :
    {V : Type 0} (k : ℕ) (v : V) (a : ℕ → V)
    → k < 32
    → store k v a ≡ some (λ j. if j == k then v else a j)
unfolding store
store_room k v a lt = rw (lt→ltb k 32 lt) refl

store_full : {V : Type 0} (k : ℕ) (v : V) (a : ℕ → V) → ltb k 32 ≡ false → store k v a ≡ none
unfolding store
store_full k v a full = rw full refl

pub store_inside :
    {V : Type 0} (k : ℕ) (v : V) (a b : ℕ → V)
    → store k v a ≡ some b
    → (k < 32) × ((j : ℕ) → b j ≡ (if j == k then v else a j))
store_inside {V} k v a b e = elim (Bool-cases (ltb k 32)) [
  | inl room ↦
      let lt = ltb→lt k 32 room in
      let next : ℕ → V = λ j. if j == k then v else a j in
      let stored = store_room k v a lt in
      let same : next ≡ b = cc in (lt, λ j. ap (λ f. f j) (sym same))
  | inr full ↦ let missing = store_full k v a full in cc
]

pub store_all-below :
    {V : Type 0} (vs : List V) (k : ℕ) (a b : ℕ → V)
    → store_all k vs a ≡ some b
    → k ≤ 32
    → (k + length vs ≤ 32) × ((j : ℕ) → j < k → b j ≡ a j)
unfolding store_all
store_all-below [] k a b e le =
    let same : a ≡ b = cc in (omega arith, λ j lt. ap (λ f. f j) (sym same))
store_all-below (v ∷ vs) k a b e le =
    let (c, first, later) = >>=-eq-some (store k v a) (store_all (suc k) vs) e in
    let (inside, at) = store_inside k v a c first in
    let (room, below) = store_all-below vs (suc k) c b later (omega arith) in
    (omega arith, λ j lt. below j (omega arith) ∙ at j ∙ ground arith)

pub store_all-first :
    {V : Type 0} (v : V) (vs : List V) (k : ℕ) (a b : ℕ → V)
    → store_all k (v ∷ vs) a ≡ some b
    → k ≤ 32
    → b k ≡ v
unfolding store_all
store_all-first v vs k a b e le =
    let (c, first, later) = >>=-eq-some (store k v a) (store_all (suc k) vs) e in
    let (inside, at) = store_inside k v a c first in
    (store_all-below vs (suc k) c b later (omega arith)).1 k (omega arith) ∙ at k ∙ ground arith
