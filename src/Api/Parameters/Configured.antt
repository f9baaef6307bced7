-- ===== src/Api/Parameters/Configured.antt =====
-- `get_config_parameters` on an answer whose parameters are JSON strings.
use phantom_monitoring_clien.Base.{
  ℕ, suc, ◌+◌, ◌-◌, ◌≤◌, ◌≡◌, refl, ap, ◌∙◌, ◌⊎◌, inl, inr, List, [], ◌∷◌, ◌++◌, Option, none, some,
  Bool, true, false, not, ◌&&◌, Bytes, codes, if◌then◌else◌, ◌==◌, ltb, leb, length, take, drop,
  strstr, starts_with, append_assoc, arith, Bool-cases, Option-cases, length-append,
}
use phantom_monitoring_clien.Base.Float.{FloatOps}
use phantom_monitoring_clien.Api.Parameters.{
  parameters_name, Found, found, absent, find_end, copy_value, find_parameter, has_text,
  set_parameter, parse_parameters, parse_response,
}

abbrev pub lacks : ℕ → Bytes → Bool
lacks c [] = true
lacks c (d ∷ s) = not (c == d) && lacks c s

strstr-lacks : (c : ℕ) (s : Bytes) → lacks c s ≡ true → strstr s (c ∷ []) ≡ none
unfolding strstr starts_with
strstr-lacks c [] free = refl
strstr-lacks c (d ∷ s) free = ground (arith, strstr-lacks c s)

strstr-first :
    (c : ℕ) (s rest : Bytes) → lacks c s ≡ true → strstr (s ++ c ∷ rest) (c ∷ []) ≡ some (c ∷ rest)
unfolding strstr starts_with
strstr-first c [] rest free = ground arith
strstr-first c (d ∷ s) rest free = ground (arith, strstr-first c s rest)

lacks-append : (c : ℕ) (s t : Bytes) → lacks c (s ++ t) ≡ (lacks c s && lacks c t)
lacks-append c [] t = refl
lacks-append c (d ∷ s) t = ground (arith, lacks-append c s t)

take-append : (s t : Bytes) → take (length s) (s ++ t) ≡ s
take-append [] t = refl
take-append (c ∷ s) t = ap (λ l. c ∷ l) (take-append s t)

drop-append : (s t : Bytes) → drop (length s) (s ++ t) ≡ t
drop-append [] t = refl
drop-append (c ∷ s) t = drop-append s t

-- `name":"value"`
abbrev pub pair_text : Bytes → Bytes → Bytes
pair_text name value = name ++ (codes "\":\"" ++ (value ++ codes "\""))

-- The value ends at a comma, or at a brace with no comma behind it.
abbrev pub IsEnd : Bytes → ℕ → Bytes → Type 0
IsEnd value sep rest =
    (sep ≡ b',') ⊎ ((sep ≡ b'}') × (lacks b'}' value ≡ true) × (lacks b',' rest ≡ true))

-- What the answer says of a name: nothing, or a value as a string, at the name's first occurrence.
abbrev pub Configures : Bytes → Bytes → Option Bytes → Type 0
Configures response name none = strstr response name ≡ none
Configures response name (some value) =
    (sep : ℕ) × (rest : Bytes) × (strstr response name ≡ some (pair_text name value ++ sep ∷ rest))
    × (lacks b',' value ≡ true)
    × (length value ≤ 15)
    × IsEnd value sep rest

abbrev is_plain : Bytes → Bool
is_plain name = lacks b',' name && lacks b'}' name

pair_text-lacks :
    (c : ℕ) (name value : Bytes)
    → lacks c name ≡ true
    → lacks c value ≡ true
    → lacks c (codes "\":\"") ≡ true
    → lacks c (codes "\"") ≡ true
    → lacks c (pair_text name value) ≡ true
pair_text-lacks c name value n v q r =
    lacks-append c name (codes "\":\"" ++ (value ++ codes "\""))
    ∙ ground (
      arith,
      lacks-append c (codes "\":\"") (value ++ codes "\""),
      lacks-append c value (codes "\""),
    )

find_end-brace :
    (name value rest : Bytes)
    → is_plain name ≡ true
    → lacks b',' value ≡ true
    → lacks b'}' value ≡ true
    → lacks b',' rest ≡ true
    → find_end (pair_text name value ++ b'}' ∷ rest) ≡ some (b'}' ∷ rest)
unfolding find_end
find_end-brace name value rest plain v v' r =
    let front = pair_text-lacks b',' name value (ground arith) v refl refl in
    let no_comma : lacks b',' (pair_text name value ++ b'}' ∷ rest) ≡ true =
      lacks-append b',' (pair_text name value) (b'}' ∷ rest) ∙ rw (front, r) refl in
    rw (find_end, strstr-lacks b',' (pair_text name value ++ b'}' ∷ rest) no_comma)
      (strstr-first b'}' (pair_text name value) rest
        (pair_text-lacks b'}' name value (ground arith) v' refl refl))

find_end-pair_text :
    (name value : Bytes) (sep : ℕ) (rest : Bytes)
    → is_plain name ≡ true
    → lacks b',' value ≡ true
    → IsEnd value sep rest
    → find_end (pair_text name value ++ sep ∷ rest) ≡ some (sep ∷ rest)
unfolding find_end
find_end-pair_text name value sep rest plain v (inl comma) =
    rw
      (
        comma,
        find_end,
        strstr-first b',' (pair_text name value) rest
            (pair_text-lacks b',' name value (ground arith) v refl refl),
      )
      refl
find_end-pair_text name value sep rest plain v (inr (brace, v', r)) =
    rw brace (find_end-brace name value rest plain v v' r)

pair_text-shape :
    (name value tail : Bytes)
    → pair_text name value ++ tail ≡ (name ++ codes "\":\"") ++ (value ++ (codes "\"" ++ tail))
pair_text-shape name value tail = simp (append_assoc) refl

copied :
    (name value tail : Bytes)
    → take (length value) (drop (3 + length name) (pair_text name value ++ tail)) ≡ value
copied name value tail =
    let key : 3 + length name ≡ length (name ++ codes "\":\"") =
      omega (arith, length-append name (codes "\":\"")) in
    rw
      (
        pair_text-shape name value tail,
        key,
        drop-append (name ++ codes "\":\"") (value ++ (codes "\"" ++ tail)),
      )
      (take-append value (codes "\"" ++ tail))

pair_text-span :
    (name value : Bytes) (sep : ℕ) (rest : Bytes)
    → length (pair_text name value ++ sep ∷ rest) - length (sep ∷ rest)
      ≡ 4 + length name + length value
pair_text-span name value sep rest = omega (
  arith,
  length-append (pair_text name value) (sep ∷ rest),
  length-append name (codes "\":\"" ++ (value ++ codes "\"")),
  length-append value (codes "\""),
)

copy_value-pair_text :
    (name value : Bytes) (sep : ℕ) (rest : Bytes)
    → length value ≤ 15
    → copy_value name (pair_text name value ++ sep ∷ rest) (sep ∷ rest) ≡ found value
unfolding copy_value
copy_value-pair_text name value sep rest short =
    let small : ltb (4 + length name + length value) (4 + length name) ≡ false = ground arith in
    let value_length : 4 + length name + length value - (4 + length name) ≡ length value =
      omega arith in
    let fits : leb 16 (length value) ≡ false = ground arith in
    rw
      (
        copy_value,
        pair_text-span name value sep rest,
        small,
        value_length,
        fits,
        copied name value (sep ∷ rest),
      )
      refl

found_of : Option Bytes → Found
found_of none = absent
found_of (some value) = found value

find_parameter-Configures :
    (response name : Bytes) (setting : Option Bytes)
    → is_plain name ≡ true
    → Configures response name setting
    → find_parameter response name ≡ found_of setting
unfolding find_parameter found_of
find_parameter-Configures response name none plain e = rw (find_parameter, e) refl
find_parameter-Configures response name (some value) plain (sep, rest, e, v, short, end) =
    rw (find_parameter, e, find_end-pair_text name value sep rest plain v end)
      (copy_value-pair_text name value sep rest short)

abbrev pub value_or {ℓ} : {A : Type ℓ} → (Bytes → A) → Option Bytes → A → A
value_or read none old = old
value_or read (some value) old = read value

-- The answer on each of the names, from number `i` on.
abbrev pub AllConfigured : Bytes → List Bytes → ℕ → (ℕ → Option Bytes) → Type 0
AllConfigured response [] i setting = Unit
AllConfigured response (name ∷ names) i setting =
    Configures response name (setting i) × AllConfigured response names (suc i) setting

abbrev all_plain : List Bytes → Bool
all_plain [] = true
all_plain (name ∷ names) = is_plain name && all_plain names

module _ (fl : FloatOps) (atof : Bytes → fl.Double) (setting : ℕ → Option Bytes) where
  open fl use {Double, single}

  -- The parameters `i` to `i + n - 1` where they are set, and the old values elsewhere.
  abbrev pub merged : ℕ → ℕ → (ℕ → Double) → ℕ → Double
  merged n i old j =
      if leb i j && ltb j (i + n)
      then value_or (λ value. single (atof value)) (setting j) (old j)
      else old j

  abbrev set_found : Option Bytes → ℕ → (ℕ → Double) → ℕ → Double
  set_found none i old = old
  set_found (some value) i old = set_parameter fl atof i value old

  merged-step :
      (n i : ℕ) (old : ℕ → Double) (j : ℕ)
      → merged n (suc i) (set_found (setting i) i old) j ≡ merged (suc n) i old j
  unfolding set_parameter
  merged-step n i old j = elim (Option-cases (setting i)) [
    | inl unset ↦ rw unset (elim (Bool-cases (j == i)) [
      | inl here ↦
          let same : j ≡ i = ground arith in
          let past : leb (suc i) i ≡ false = ground arith in rw (same, unset, past) (ground arith)
      | inr other ↦ ground arith
    ])
    | inr (value, is_set) ↦ rw is_set (elim (Bool-cases (j == i)) [
      | inl here ↦
          let same : j ≡ i = ground arith in
          let past : leb (suc i) i ≡ false = ground arith in rw (same, is_set, past) (ground arith)
      | inr other ↦ ground arith
    ])
  ]

  parse_found :
      (response name : Bytes) (names : List Bytes) (i : ℕ) (old : ℕ → Double)
      → find_parameter response name ≡ found_of (setting i)
      → parse_parameters fl atof response (name ∷ names) i old
        ≡ parse_parameters fl atof response names (suc i) (set_found (setting i) i old)
  unfolding parse_parameters found_of
  parse_found response name names i old f = elim (Option-cases (setting i)) [
    | inl unset ↦ rw (parse_parameters, f, unset) refl
    | inr (value, is_set) ↦ rw (parse_parameters, f, is_set) refl
  ]

  parse_parameters-AllConfigured :
      (response : Bytes) (names : List Bytes) (i : ℕ) (old : ℕ → Double)
      → all_plain names ≡ true
      → AllConfigured response names i setting
      → parse_parameters fl atof response names i old ≡ some (true, merged (length names) i old)
  unfolding parse_parameters found_of
  parse_parameters-AllConfigured response [] i old plain all =
      let h : (j : ℕ) → old j ≡ merged 0 i old j = λ j. ground arith in
      let e : old ≡ merged 0 i old = λ k j. h j k in ap (λ f. some (true, f)) e
  parse_parameters-AllConfigured response (name ∷ names) i old plain (first, all) =
      let f : find_parameter response name ≡ found_of (setting i) =
        find_parameter-Configures response name (setting i) (ground arith) first in
      let e : merged (length names) (suc i) (set_found (setting i) i old)
          ≡ merged (suc (length names)) i old =
        λ k j. merged-step (length names) i old j k in
      parse_found response name names i old f
      ∙ parse_parameters-AllConfigured response names (suc i) (set_found (setting i) i old)
          (ground arith) all
      ∙ ap (λ g. some (true, g)) e

-- parse_response is get_config_parameters behind its query. On an answer that holds "parameters" and in
-- which each of the nine names is missing or stands first as "NAME":"value" with a comma or the object's
-- last brace behind it, the value at most 15 bytes long and without comma (and brace), it succeeds in
-- bounds: each parameter that is named gets the number of its value, as a float, and the others keep
-- theirs.
pub parse_response-AllConfigured :
    (fl : FloatOps) (atof : Bytes → fl.Double) (setting : ℕ → Option Bytes) (response : Bytes)
    (old : ℕ → fl.Double)
    → has_text response (codes "parameters") ≡ true
    → AllConfigured response parameters_name 0 setting
    → parse_response fl atof (record { contents = response; is_dangling = false }) old
      ≡ some (true, merged fl atof setting 9 0 old)
unfolding parse_response
parse_response-AllConfigured fl atof setting response old has all =
    rw has (parse_parameters-AllConfigured fl atof setting response parameters_name 0 old refl all)
