-- ===== src/Parser/Assoc.antt =====
-- A list of entries with distinct keys is a hash table in the sense of the interface.
use phantom_monitoring_clien.Base.{
  ◌≡◌, refl, [], ◌∷◌, none, some, Bytes, str_eq, if◌then◌else◌, arith, str_eq_iff,
}
use phantom_monitoring_clien.Parser.Hash.{HashTable, Entries, Distinct, lookup}

unfoldable pub insert : {V : Type 0} → Bytes → V → Entries V → Entries V
insert k v [] = (k, v) ∷ []
insert k v ((j, w) ∷ t) = if str_eq j k then (j, v) ∷ t else (j, w) ∷ insert k v t

pub lookup-insert :
    {V : Type 0} (k j : Bytes) (v : V) (t : Entries V)
    → lookup j (insert k v t) ≡ (if str_eq k j then some v else lookup j t)
unfolding lookup insert
lookup-insert k j v [] = refl
lookup-insert k j v ((i, w) ∷ t) =
    ground (arith, str_eq_iff k j, str_eq_iff i k, str_eq_iff i j, lookup-insert k j v t)

pub insert-Distinct :
    {V : Type 0} (k : Bytes) (v : V) (t : Entries V) → Distinct t → Distinct (insert k v t)
unfolding lookup insert
insert-Distinct k v [] d = (refl, tt)
insert-Distinct k v ((i, w) ∷ t) d =
    ground (arith, insert-Distinct k v t d.1, lookup-insert k i v t, str_eq_iff k i, str_eq_iff i k)

pub lookup-nil : {V : Type 0} (k : Bytes) → lookup {V = V} k [] ≡ none
unfolding lookup
lookup-nil k = refl

abbrev pub assoc : HashTable
assoc = record {
  Table = λ V. (t : Entries V) × Distinct t;
  make = λ V. ([], tt);
  get = λ V t k. lookup k t.0;
  set = λ V t k v. (insert k v t.0, insert-Distinct k v t.0 t.1);
  entries = λ V t. t.0;
  get-make = λ V k. lookup-nil k;
  get-set = λ V t k j v. lookup-insert k j v t.0;
  lookup-entries = λ V t k. refl;
  entries-Distinct = λ V t. t.1;
}
