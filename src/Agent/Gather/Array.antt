-- ===== src/Agent/Gather/Array.antt =====
-- The array that a round of `gatherMetric` sends.
use phantom_monitoring_clien.Base.{
  ℕ, zero, suc, ◌+◌, ◌*◌, ◌≡◌, refl, sym, ap, ◌∙◌, List, [], ◌∷◌, ◌++◌, Option, none, some, Bool,
  true, false, Bytes, codes, if◌then◌else◌, >>=-eq-some, map, append_assoc, append-nil, arith,
  Option-cases, inl, inr,
}
use phantom_monitoring_clien.Agent.Gather.{
  Sample, json_len, in_buffer, append_sample, collect_samples, set_last, gather_bulk,
}

-- The samples of a bulk that have a text, up to the first sleep that fails.
abbrev pub texts : (ℕ → Sample) → ℕ → ℕ → List Bytes
texts sample zero i = []
texts sample (suc k) i =
    let later = texts sample k (i + 1) in
    let rest = if (sample i).slept then later else [] in
    elim (sample i).json [ none ↦ rest | some json ↦ json ∷ rest ]

-- The object of one sample.
abbrev pub object_of : Bytes → Bytes → Bytes
object_of static_text json = static_text ++ (json ++ codes "}")

-- The objects with a comma between any two.
abbrev pub joined : List Bytes → Bytes
joined [] = []
joined (o ∷ []) = o
joined (o ∷ p ∷ os) = o ++ (codes "," ++ joined (p ∷ os))

abbrev messages : Bytes → List Bytes → Bytes
messages static_text [] = []
messages static_text (t ∷ ts) = (static_text ++ (t ++ codes "},")) ++ messages static_text ts

in_buffer-eq : (size : ℕ) (s : Bytes) {t : Bytes} → in_buffer size s ≡ some t → t ≡ s
in_buffer-eq size s e = ground arith

append_sample-eq :
    (bulk_size : ℕ) (static_text : Bytes) (sample : ℕ → Sample) (o : Option Bytes) (a : Bytes)
    {b : Bytes}
    → append_sample bulk_size static_text sample o a ≡ some b
    → b ≡ a ++ messages static_text (elim o [ none ↦ [] | some t ↦ t ∷ [] ])
unfolding append_sample
append_sample-eq bulk_size static_text sample none a e = ground (arith, append-nil a)
append_sample-eq bulk_size static_text sample (some t) a e =
    ground (arith, append-nil (static_text ++ (t ++ codes "},")))

messages-append :
    (static_text : Bytes) (xs ys : List Bytes)
    → messages static_text (xs ++ ys) ≡ messages static_text xs ++ messages static_text ys
messages-append static_text [] ys = refl
messages-append static_text (x ∷ xs) ys =
    ap (λ m. (static_text ++ (x ++ codes "},")) ++ m) (messages-append static_text xs ys)
    ∙ sym (append_assoc (static_text ++ (x ++ codes "},")) (messages static_text xs) _)

module _ (bulk_size : ℕ) (static_text : Bytes) (sample : ℕ → Sample) where
  abbrev after_sleep : ℕ → ℕ → Bytes → Bool → Option (ℕ × Bytes)
  after_sleep k i longer slept = elim slept [
    | true ↦ collect_samples bulk_size static_text sample k (i + 1) longer
    | false ↦ some (i + 1, longer)
  ]

  -- The text of the first sample comes before those of the later ones.
  texts-split :
      (k i : ℕ)
      → texts sample (suc k) i
        ≡ (elim (sample i).json [ none ↦ [] | some t ↦ t ∷ [] ])
          ++ (if (sample i).slept then texts sample k (i + 1) else [])
  texts-split k i = elim (Option-cases (sample i).json) [
    | inl e ↦ ground arith
    | inr (t, e) ↦ ground arith
  ]

  collect_samples-messages :
      (k i : ℕ) (a : Bytes) {j : ℕ} {b : Bytes}
      → collect_samples bulk_size static_text sample k i a ≡ some (j, b)
      → b ≡ a ++ messages static_text (texts sample k i)
  unfolding collect_samples
  collect_samples-messages zero i a e = ground (arith, append-nil a)
  collect_samples-messages (suc k) i a {j} {b} e =
      let (longer, appended, later) =
        >>=-eq-some (append_sample bulk_size static_text sample (sample i).json a)
          (λ l. after_sleep k i l (sample i).slept) e in
      slept_cases (sample i).slept (texts sample k (i + 1)) longer
        (append_sample-eq bulk_size static_text sample (sample i).json a appended) later
        (collect_samples-messages k (i + 1) longer {j = j} {b = b})
      ∙ ap (λ ts. a ++ messages static_text ts) (sym (texts-split k i))
    where
      own : List Bytes
      own = elim (sample i).json [ none ↦ [] | some t ↦ t ∷ [] ]

      slept_cases :
          (slept : Bool) (ts : List Bytes) (longer : Bytes)
          → longer
            ≡ a ++ messages static_text (elim (sample i).json [ none ↦ [] | some t ↦ t ∷ [] ])
          → after_sleep k i longer slept ≡ some (j, b)
          → (collect_samples bulk_size static_text sample k (i + 1) longer ≡ some (j, b)
              → b ≡ longer ++ messages static_text ts)
          → b
            ≡ a
              ++ messages static_text (
                  (elim (sample i).json [ none ↦ [] | some t ↦ t ∷ [] ])
                  ++ (if slept then ts else []))
      slept_cases true ts longer l e' ih =
          ih e'
          ∙ ap (λ x. x ++ messages static_text ts) l
          ∙ append_assoc a (messages static_text own) (messages static_text ts)
          ∙ ap (λ x. a ++ x) (sym (messages-append static_text own ts))
      slept_cases false ts longer l e' ih =
          let same : b ≡ longer = ground arith in
          same ∙ l ∙ ap (λ x. a ++ messages static_text x) (sym (append-nil own))

set_last-append : (c : ℕ) (s : Bytes) (x : ℕ) → set_last c (s ++ x ∷ []) ≡ s ++ c ∷ []
unfolding set_last
set_last-append c [] x = refl
set_last-append c (y ∷ []) x = refl
set_last-append c (y ∷ z ∷ s) x = ap (◌∷◌ y) (set_last-append c (z ∷ s) x)

message-object :
    (static_text t : Bytes)
    → static_text ++ (t ++ codes "},") ≡ object_of static_text t ++ codes ","
message-object static_text t =
    ap (λ m. static_text ++ m) (sym (append_assoc t (codes "}") (codes ",")))
    ∙ sym (append_assoc static_text (t ++ codes "}") (codes ","))

-- The messages are the joined objects, with a comma behind the last.
messages-joined :
    (static_text t : Bytes) (ts : List Bytes)
    → messages static_text (t ∷ ts) ≡ joined (map (object_of static_text) (t ∷ ts)) ++ codes ","
messages-joined static_text t [] = append-nil _ ∙ message-object static_text t
messages-joined static_text t (u ∷ ts) =
    ap (λ m. (static_text ++ (t ++ codes "},")) ++ m) (messages-joined static_text u ts)
    ∙ ap (λ o. o ++ (joined (map (object_of static_text) (u ∷ ts)) ++ codes ","))
        (message-object static_text t)
    ∙ append_assoc (object_of static_text t) (codes ",")
        (joined (map (object_of static_text) (u ∷ ts)) ++ codes ",")
    ∙ sym (
        append_assoc (object_of static_text t)
          (codes "," ++ joined (map (object_of static_text) (u ∷ ts))) (codes ","))

-- The array of a bulk: nothing but the closing bracket if there is no text.
abbrev pub array_text : Bytes → List Bytes → Bytes
array_text static_text [] = codes "]"
array_text static_text (t ∷ ts) =
    codes "[" ++ (joined (map (object_of static_text) (t ∷ ts)) ++ codes "]")

closed :
    (static_text : Bytes) (ts : List Bytes)
    → set_last b']' (codes "[" ++ messages static_text ts) ≡ array_text static_text ts
closed static_text [] = unfold set_last in refl
closed static_text (t ∷ ts) =
    ap (λ m. set_last b']' (codes "[" ++ m)) (messages-joined static_text t ts)
    ∙ set_last-append b']' (codes "[" ++ joined (map (object_of static_text) (t ∷ ts))) b','

-- Where no buffer overflows, a round sends the samples' texts, up to a sleep that is interrupted,
-- as a JSON array: one object for each, led by the static text, with commas between. If no sample
-- has a text it sends the closing bracket alone.
pub gather_bulk-array :
    (bulk_size : ℕ) (static_text : Bytes) (sample : ℕ → Sample) (i j : ℕ) (body : Bytes)
    → gather_bulk bulk_size static_text sample i ≡ some (j, body)
    → body ≡ array_text static_text (texts sample bulk_size i)
unfolding gather_bulk
gather_bulk-array bulk_size static_text sample i j body e =
    let (opened, o, rest) = >>=-eq-some (in_buffer (json_len * bulk_size) (codes "[")) _ e in
    let (r, collected, sent) =
      >>=-eq-some (collect_samples bulk_size static_text sample bulk_size i opened)
        (λ q. some (q.0, set_last b']' q.1)) rest in
    let whole =
      collect_samples-messages bulk_size static_text sample bulk_size i opened {j = r.0} {b = r.1}
        collected in
    let bracket = in_buffer-eq (json_len * bulk_size) (codes "[") o in
    let same : body ≡ set_last b']' r.1 = ground arith in
    same
    ∙ ap (set_last b']')
        (whole ∙ ap (λ x. x ++ messages static_text (texts sample bulk_size i)) bracket)
    ∙ closed static_text (texts sample bulk_size i)
