-- ===== src/Api/Resources/Sizes.antt =====
-- What the loops over /proc/[pid]/status and /proc/meminfo read from lines as the kernel prints them.
use phantom_monitoring_clien.Base.{
  ℕ, ◌<◌, ◌≡◌, refl, ap, ◌∙◌, List, [], ◌∷◌, ◌++◌, true, false, Bytes, codes, is_space, length,
  drop, All, starts_with, u64_mod, arith,
}
use phantom_monitoring_clien.Base.Numeral.Decimal.{decimal, scan_fields-decimal, scan_fields-spaces}
use phantom_monitoring_clien.Plugins.ProcFs.{scan_into}
use phantom_monitoring_clien.Api.Resources.{size_lines}

abbrev pub Key : Type 0
Key = Bytes × ℕ

-- `VmRSS:     1234 kB`
abbrev pub size_text : Bytes → Bytes → ℕ → Bytes
size_text key pad n = key ++ (pad ++ (decimal n ++ codes " kB\n"))

abbrev pub Padding : Bytes → Type 0
Padding pad = All (λ c. is_space c ≡ true) pad

abbrev pub IsOther : Bytes → Bytes → Bytes → Type 0
IsOther k l line = (starts_with k line ≡ false) × (starts_with l line ≡ false)

-- A file with one line for each of two keys.
abbrev pub sizes_text :
    Bytes → Bytes → Bytes × Bytes → ℕ × ℕ → List Bytes → List Bytes → List Bytes → List Bytes
sizes_text k l pads v front middle back =
    front ++ (size_text k pads.0 v.0 ∷ (middle ++ (size_text l pads.1 v.1 ∷ back)))

starts_with-append : (p s : Bytes) → starts_with p (p ++ s) ≡ true
unfolding starts_with
starts_with-append [] s = refl
starts_with-append (c ∷ p) s = ground (arith, starts_with-append p s)

drop-append : (p s : Bytes) → drop (length p) (p ++ s) ≡ s
drop-append [] s = refl
drop-append (c ∷ p) s = drop-append p s

scan_into-size_text :
    (key pad : Bytes) (n old : ℕ)
    → Padding pad
    → n < u64_mod
    → scan_into (drop (length key) (size_text key pad n)) old ≡ n
scan_into-size_text key pad n old spaces fits =
    rw
      (
        drop-append key (pad ++ (decimal n ++ codes " kB\n")),
        scan_fields-spaces 1 pad (decimal n ++ codes " kB\n") spaces,
        scan_fields-decimal n (codes " kB\n") fits refl,
      )
      refl

module _ (k l : Bytes) where
  lines_of : List Bytes → ℕ × ℕ → ℕ × ℕ
  lines_of lines v = size_lines (k, length k) (l, length l) lines v

  lines_of-append :
      (xs ys : List Bytes) (v : ℕ × ℕ) → lines_of (xs ++ ys) v ≡ lines_of ys (lines_of xs v)
  unfolding lines_of size_lines
  lines_of-append [] ys v = refl
  lines_of-append (x ∷ xs) ys v = lines_of-append xs ys _

  lines_of-IsOther : (xs : List Bytes) (v : ℕ × ℕ) → All (IsOther k l) xs → lines_of xs v ≡ v
  unfolding lines_of size_lines
  lines_of-IsOther [] v all = refl
  lines_of-IsOther (x ∷ xs) v ((no_k, no_l), all) = rw (no_k, no_l) (lines_of-IsOther xs v all)

  -- Neither key is a prefix of a line of the other.
  abbrev pub AreApart : Type 0
  AreApart =
      ((s : Bytes) → starts_with l (k ++ s) ≡ false)
      × ((s : Bytes) → starts_with k (l ++ s) ≡ false)

  lines_of-first :
      (pad : Bytes) (n : ℕ) (rest : List Bytes) (v : ℕ × ℕ)
      → Padding pad
      → AreApart
      → n < u64_mod
      → lines_of (size_text k pad n ∷ rest) v ≡ lines_of rest (n, v.1)
  unfolding lines_of size_lines
  lines_of-first pad n rest v spaces apart fits =
      rw
        (
          size_lines,
          starts_with-append k (pad ++ (decimal n ++ codes " kB\n")),
          apart.0 (pad ++ (decimal n ++ codes " kB\n")),
          scan_into-size_text k pad n v.0 spaces fits,
        )
        refl

  lines_of-second :
      (pad : Bytes) (n : ℕ) (rest : List Bytes) (v : ℕ × ℕ)
      → Padding pad
      → AreApart
      → n < u64_mod
      → lines_of (size_text l pad n ∷ rest) v ≡ lines_of rest (v.0, n)
  unfolding lines_of size_lines
  lines_of-second pad n rest v spaces apart fits =
      rw
        (
          size_lines,
          starts_with-append l (pad ++ (decimal n ++ codes " kB\n")),
          apart.1 (pad ++ (decimal n ++ codes " kB\n")),
          scan_into-size_text l pad n v.1 spaces fits,
        )
        refl

-- The two sizes are read, whatever the locals held.
pub size_lines-sizes_text :
    (k l : Bytes) (pads : Bytes × Bytes) (v junk : ℕ × ℕ) (front middle back : List Bytes)
    → Padding pads.0
    → Padding pads.1
    → AreApart k l
    → v.0 < u64_mod
    → v.1 < u64_mod
    → All (IsOther k l) front
    → All (IsOther k l) middle
    → All (IsOther k l) back
    → size_lines (k, length k) (l, length l) (sizes_text k l pads v front middle back) junk ≡ v
unfolding lines_of
size_lines-sizes_text k l pads v junk front middle back spaces spaces' apart fits_0 fits_1 f m b =
    lines_of-append k l front (size_text k pads.0 v.0 ∷ (middle ++ (size_text l pads.1 v.1 ∷ back)))
      junk
    ∙ ap (lines_of k l _) (lines_of-IsOther k l front junk f)
    ∙ lines_of-first k l pads.0 v.0 (middle ++ (size_text l pads.1 v.1 ∷ back)) junk spaces apart
        fits_0
    ∙ lines_of-append k l middle (size_text l pads.1 v.1 ∷ back) (v.0, junk.1)
    ∙ ap (lines_of k l (size_text l pads.1 v.1 ∷ back))
        (lines_of-IsOther k l middle (v.0, junk.1) m)
    ∙ lines_of-second k l pads.1 v.1 back (v.0, junk.1) spaces' apart fits_1
    ∙ lines_of-IsOther k l back v b
