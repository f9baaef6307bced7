-- ===== src/Parser/Hash.antt =====
-- The interface of apr_hash.h (Apache Portable Runtime): what src/parser/src/mf_parser.c relies on.
-- `entries` is the order of apr_hash_first and apr_hash_next, which APR leaves open.
use phantom_monitoring_clien.Base.{
  ◌≡◌, List, [], ◌∷◌, Option, none, some, Bytes, str_eq, if◌then◌else◌,
}

abbrev pub Entries : Type 0 → Type 0
Entries V = List (Bytes × V)

-- The value at a key in a list of entries.
unfoldable pub lookup : {V : Type 0} → Bytes → Entries V → Option V
lookup k [] = none
lookup k ((j, v) ∷ t) = if str_eq j k then some v else lookup k t

-- No key occurs twice.
abbrev pub Distinct : {V : Type 0} → Entries V → Type 0
Distinct [] = Unit
Distinct ((k, v) ∷ t) = (lookup k t ≡ none) × Distinct t

pub record HashTable : Type 1 where
  pub Table : Type 0 → Type 0
  pub make : (V : Type 0) → Table V
  pub get : (V : Type 0) → Table V → Bytes → Option V
  pub set : (V : Type 0) → Table V → Bytes → V → Table V
  pub entries : (V : Type 0) → Table V → Entries V
  pub get-make : (V : Type 0) (k : Bytes) → get V (make V) k ≡ none
  pub get-set :
      (V : Type 0) (t : Table V) (k j : Bytes) (v : V)
      → get V (set V t k v) j ≡ (if str_eq k j then some v else get V t j)
  pub lookup-entries : (V : Type 0) (t : Table V) (k : Bytes) → lookup k (entries V t) ≡ get V t k
  pub entries-Distinct : (V : Type 0) (t : Table V) → Distinct (entries V t)
