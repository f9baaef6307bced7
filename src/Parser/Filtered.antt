-- ===== src/Parser/Filtered.antt =====
-- What `mfp_get_data_filtered_by_value` collects.
use phantom_monitoring_clien.Base.{
  ◌≡◌, ◌≤◌, ◌+◌, Bool-cases, inl, inr, refl, sym, ap, ◌∙◌, List, [], ◌∷◌, ◌++◌, Option, none, some,
  Bool, true, false, Bytes, if◌then◌else◌, arith, str_eq_iff, length, length-append, append_assoc,
  append-nil,
}
use phantom_monitoring_clien.Parser.Hash.{HashTable, Entries, Distinct, lookup}
use phantom_monitoring_clien.Parser.{
  Parser, MfpData, passes_filter, append_entry, collect, mfp_get_data_filtered_by_value,
}

-- The entries that pass, in the order of the table.
abbrev filtered : Option Bytes → Entries Bytes → Entries Bytes
filtered f [] = []
filtered f ((k, v) ∷ t) = if passes_filter f v then (k, v) ∷ filtered f t else filtered f t

abbrev pub zipped : List Bytes → List Bytes → Entries Bytes
zipped [] vs = []
zipped (k ∷ ks) [] = []
zipped (k ∷ ks) (v ∷ vs) = (k, v) ∷ zipped ks vs

-- A value that is kept only if it passes the filter.
abbrev pub kept : Option Bytes → Option Bytes → Option Bytes
kept f none = none
kept f (some v) = if passes_filter f v then some v else none

lookup-filtered-none :
    (f : Option Bytes) (k : Bytes) (t : Entries Bytes)
    → lookup k t ≡ none
    → lookup k (filtered f t) ≡ none
unfolding lookup
lookup-filtered-none f k [] e = refl
lookup-filtered-none f k ((j, v) ∷ t) e = ground (arith, lookup-filtered-none f k t)

lookup-filtered :
    (f : Option Bytes) (k : Bytes) (t : Entries Bytes)
    → Distinct t
    → lookup k (filtered f t) ≡ kept f (lookup k t)
unfolding lookup
lookup-filtered f k [] d = refl
lookup-filtered f k ((j, v) ∷ t) d =
    ground (arith, lookup-filtered f k t d.1, lookup-filtered-none f k t, str_eq_iff j k)

-- The three fields agree.
abbrev pub IsAligned : MfpData → Type 0
IsAligned d = (length d.keys ≡ d.size) × (length d.values ≡ d.size)

zipped-append :
    (ks vs : List Bytes) (k v : Bytes)
    → length ks ≡ length vs
    → zipped (ks ++ k ∷ []) (vs ++ v ∷ []) ≡ zipped ks vs ++ (k, v) ∷ []
zipped-append [] [] k v e = refl
zipped-append [] (w ∷ vs) k v e = absurd (omega arith)
zipped-append (j ∷ ks) [] k v e = absurd (omega arith)
zipped-append (j ∷ ks) (w ∷ vs) k v e = ap (◌∷◌ (j, w)) (zipped-append ks vs k v (omega arith))

append_entry-IsAligned : (d : MfpData) (k v : Bytes) → IsAligned d → IsAligned (append_entry d k v)
unfolding append_entry
append_entry-IsAligned d k v a =
    (omega (arith, length-append d.keys (k ∷ [])), omega (arith, length-append d.values (v ∷ [])))

collect-zipped :
    (f : Option Bytes) (d : MfpData) (t : Entries Bytes)
    → IsAligned d
    → IsAligned (collect f d t)
      × (zipped (collect f d t).keys (collect f d t).values
          ≡ zipped d.keys d.values ++ filtered f t)
unfolding collect
collect-zipped f d [] a = (a, sym (append-nil _))
collect-zipped f d ((k, v) ∷ t) a =
    choose (collect-zipped f grown t (append_entry-IsAligned d k v a)) (collect-zipped f d t a)
      (passes_filter f v)
  where
    grown : MfpData
    grown = append_entry d k v

    grown-zipped : zipped grown.keys grown.values ≡ zipped d.keys d.values ++ (k, v) ∷ []
    grown-zipped = zipped-append d.keys d.values k v (a.0 ∙ sym a.1)

    Collected : MfpData → Type 0
    Collected d' =
        IsAligned (collect f d' t)
        × (zipped (collect f d' t).keys (collect f d' t).values
            ≡ zipped d'.keys d'.values ++ filtered f t)

    choose :
        Collected grown
        → Collected d
        → (b : Bool)
        → let r = collect f (if b then grown else d) t in
          IsAligned r
          × (zipped r.keys r.values
              ≡ zipped d.keys d.values ++ (if b then (k, v) ∷ filtered f t else filtered f t))
    choose (b, e) old true = (
      b,
      e
          ∙ ap (λ l. l ++ filtered f t) grown-zipped
          ∙ append_assoc (zipped d.keys d.values) ((k, v) ∷ []) (filtered f t),
    )
    choose new old false = old

collect-room :
    (f : Option Bytes) (d : MfpData) (t : Entries Bytes) → (collect f d t).size ≤ d.size + length t
unfolding collect append_entry
collect-room f d [] = omega arith
collect-room f d ((k, v) ∷ t) = elim (Bool-cases (passes_filter f v)) [
  | inl pass ↦
      let later = collect-room f (append_entry d k v) t in rw (pass, collect) (omega (arith, later))
  | inr other ↦ let later = collect-room f d t in rw (other, collect) (omega (arith, later))
]

module _ (h : HashTable) where
  open h use {Table, get, entries, lookup-entries, entries-Distinct}

  -- After initialisation, for a section that is stored with at most 256 keys, which is the size of the
  -- arrays, the data stay within the arrays and hold exactly the section's keys whose
  -- value passes the filter, each with its value, and `size` is the number of keys and of values held; a
  -- section that is missing gives size 0.
  pub filtered_data :
      (p : Parser h) (section : Bytes) (d : MfpData) (f : Option Bytes)
      → p.ht_initialized ≡ true
      → let r = mfp_get_data_filtered_by_value h p section d f in
        ((t : Table Bytes)
          → get (Table Bytes) p.ht_config section ≡ some t
          → length (entries Bytes t) ≤ 256
          → (r.size ≤ 256)
            × IsAligned r
            × ((k : Bytes) → lookup k (zipped r.keys r.values) ≡ kept f (get Bytes t k)))
        × (get (Table Bytes) p.ht_config section ≡ none → r.size ≡ 0)
  unfolding mfp_get_data_filtered_by_value
  filtered_data p section d f i = rw i (
    (λ t e few.
        rw (e, mfp_get_data_filtered_by_value)
          (let (a, z) =
              collect-zipped f (record { keys = []; values = []; size = 0 }) (entries Bytes t)
                (refl, refl) in
            (
              omega (
                arith,
                few,
                collect-room f (record { keys = []; values = []; size = 0 }) (entries Bytes t),
              ),
              a,
              λ k.
                  rw z (lookup-filtered f k _ (entries-Distinct Bytes t))
                  ∙ ap (kept f) (lookup-entries Bytes t k),
            ))),
    λ e. rw (e, mfp_get_data_filtered_by_value),
  )
