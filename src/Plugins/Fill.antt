-- ===== src/Plugins/Fill.antt =====
-- Where `fill` of Metrics stores its entries.
use phantom_monitoring_clien.Base.{
  ℕ, zero, suc, ◌+◌, ◌<◌, ◌≤◌, ◌≡◌, refl, sym, ap, ap₂, ◌∙◌, List, [], ◌∷◌, Option, none, some,
  Bool, true, false, map, length, get_elem?, get_or, arith,
}
use phantom_monitoring_clien.Plugins.Metrics.{put, fill}

-- The place of entry k: the number of entries before it that are there.
abbrev pub rank : List Bool → ℕ → ℕ
rank [] k = 0
rank (b ∷ r) zero = 0
rank (true ∷ r) (suc k) = suc (rank r k)
rank (false ∷ r) (suc k) = rank r k

abbrev pub flags_of : {V : Type 0} → List (Bool × Option V) → List Bool
flags_of l = map (λ x. x.0) l

abbrev pub stored : {V : Type 0} → Option V → V → V
stored none old = old
stored (some v) old = v

put-next :
    {V : Type 0} (b : Bool) (v : Option V) (a : (ℕ → V) × ℕ)
    → (put b v a).1 ≡ a.1 + rank (b ∷ false ∷ []) 1
unfolding put
put-next true none a = omega arith
put-next true (some v) a = omega arith
put-next false none a = omega arith
put-next false (some v) a = omega arith

put-below :
    {V : Type 0} (b : Bool) (v : Option V) (a : (ℕ → V) × ℕ) (j : ℕ)
    → j < a.1
    → (put b v a).0 j ≡ a.0 j
unfolding put
put-below true none a j lt = refl
put-below true (some v) a j lt = ground arith
put-below false none a j lt = refl
put-below false (some v) a j lt = refl

put-at : {V : Type 0} (v : Option V) (a : (ℕ → V) × ℕ) → (put true v a).0 a.1 ≡ stored v (a.0 a.1)
unfolding put
put-at none a = refl
put-at (some v) a = ground arith

put-above :
    {V : Type 0} (b : Bool) (v : Option V) (a : (ℕ → V) × ℕ) (j : ℕ)
    → (put b v a).1 ≤ j
    → (put b v a).0 j ≡ a.0 j
unfolding put
put-above true none a j le = refl
put-above true (some v) a j le = ground arith
put-above false none a j le = refl
put-above false (some v) a j le = refl

pub fill-below :
    {V : Type 0} (l : List (Bool × Option V)) (a : (ℕ → V) × ℕ) (j : ℕ)
    → j < a.1
    → (fill l a).0 j ≡ a.0 j
unfolding fill
fill-below [] a j lt = refl
fill-below ((b, v) ∷ r) a j lt =
    let e = put-next b v a in fill-below r (put b v a) j (omega arith) ∙ put-below b v a j lt

pub fill-count :
    {V : Type 0} (l : List (Bool × Option V)) (a : (ℕ → V) × ℕ)
    → (fill l a).1 ≡ a.1 + rank (flags_of l) (length l)
unfolding fill
fill-count [] a = omega arith
fill-count ((true, v) ∷ r) a = omega (arith, fill-count r (put true v a), put-next true v a)
fill-count ((false, v) ∷ r) a = omega (arith, fill-count r (put false v a), put-next false v a)

pub fill-at :
    {V : Type 0} (l : List (Bool × Option V)) (a : (ℕ → V) × ℕ) (k j : ℕ) (v : Option V)
    → get_elem? l k ≡ some (true, v)
    → j ≡ a.1 + rank (flags_of l) k
    → (j < (fill l a).1) × ((fill l a).0 j ≡ stored v (a.0 j))
unfolding fill
fill-at [] a k j v e at = absurd (ground arith)
fill-at ((true, w) ∷ r) a zero j v e at =
    let n = put-next true w a in
    let c = fill-count r (put true w a) in
    let same : w ≡ v = ground arith in
    let here : j ≡ a.1 = omega arith in
    (omega arith, fill-below r (put true w a) j (omega arith) ∙ rw (here, sym same) (put-at w a))
fill-at ((false, w) ∷ r) a zero j v e at = absurd (ground arith)
fill-at ((true, w) ∷ r) a (suc k) j v e at =
    let n = put-next true w a in
    let (lt, h) = fill-at r (put true w a) k j v e (omega arith) in
    (lt, h ∙ ap (stored v) (put-above true w a j (omega arith)))
fill-at ((false, w) ∷ r) a (suc k) j v e at =
    let n = put-next false w a in
    let (lt, h) = fill-at r (put false w a) k j v e (omega arith) in
    (lt, h ∙ ap (stored v) (put-above false w a j (omega arith)))

flagged-elem :
    {V : Type 0} (l : List (Bool × Option V)) (k : ℕ)
    → get_or (flags_of l) k false ≡ true
    → get_elem? l k ≡ some (true, (get_or l k (false, none)).1)
flagged-elem [] k on = absurd (ground arith)
flagged-elem ((b, v) ∷ r) zero on = rw on refl
flagged-elem ((b, v) ∷ r) (suc k) on = flagged-elem r k on

-- Filling an array from its start, an entry that is there is stored at its rank.
pub fill-flagged :
    {V : Type 0} (l : List (Bool × Option V)) (a : ℕ → V) (k : ℕ)
    → get_or (flags_of l) k false ≡ true
    → (rank (flags_of l) k < (fill l (a, 0)).1)
      × ((fill l (a, 0)).0 (rank (flags_of l) k)
          ≡ stored (get_or l k (false, none)).1 (a (rank (flags_of l) k)))
fill-flagged l a k on =
    fill-at l (a, 0) k (rank (flags_of l) k) _ (flagged-elem l k on) (omega arith)

-- The entries of an array from `i` on.
abbrev pub row : {V : Type 0} → (ℕ → V) → ℕ → ℕ → List V
row a i zero = []
row a i (suc n) = a i ∷ row a (suc i) n

abbrev pub kept : {V : Type 0} → List (Bool × V) → List V
kept [] = []
kept ((true, v) ∷ r) = v ∷ kept r
kept ((false, v) ∷ r) = kept r

abbrev pub with_some : {V : Type 0} → List (Bool × V) → List (Bool × Option V)
with_some l = map (λ x. (x.0, some x.1)) l

pub row-fill :
    {V : Type 0} (l : List (Bool × V)) (a : (ℕ → V) × ℕ) (i : ℕ)
    → i ≡ a.1
    → row (fill (with_some l) a).0 i (rank (flags_of (with_some l)) (length l)) ≡ kept l
unfolding fill
row-fill [] a i e = refl
row-fill ((true, v) ∷ r) a i e =
    let n = put-next true (some v) a in
    ap₂ ◌∷◌
      (fill-below (with_some r) (put true (some v) a) i (omega arith) ∙ rw e (put-at (some v) a))
      (row-fill r (put true (some v) a) (suc i) (omega arith))
row-fill ((false, v) ∷ r) a i e =
    let n = put-next false (some v) a in row-fill r (put false (some v) a) i (omega arith)

length-with_some : {V : Type 0} (l : List (Bool × V)) → length (with_some l) ≡ length l
length-with_some [] = refl
length-with_some (x ∷ l) = ap suc (length-with_some l)

-- An array that is filled from its start holds the entries that are there, in their order.
pub fill-kept :
    {V : Type 0} (l : List (Bool × V)) (a : ℕ → V)
    → let r = fill (with_some l) (a, 0) in row r.0 0 r.1 ≡ kept l
fill-kept l a =
    let count : (fill (with_some l) (a, 0)).1 ≡ rank (flags_of (with_some l)) (length l) = omega (
      arith,
      fill-count (with_some l) (a, 0),
      ap (rank (flags_of (with_some l))) (length-with_some l),
    ) in
    rw count (row-fill l (a, 0) 0 refl)
