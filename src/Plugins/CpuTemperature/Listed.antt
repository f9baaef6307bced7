-- ===== src/Plugins/CpuTemperature/Listed.antt =====
-- What the init of CPU_temperature leaves in its arrays.
use phantom_monitoring_clien.Base.{
  ℕ, suc, ◌++◌, drop, sym, get_elem?, ◌+◌, ◌<◌, ◌≤◌, ◌≡◌, refl, subst, ap, ◌∙◌, List, [], ◌∷◌,
  Option, some, Bool, true, false, Bytes, codes, if◌then◌else◌, ◌==◌, arith, Bool-cases, inl, inr,
  >>=-eq-some, ◌>>=◌, starts_with, str_eq,
}
use phantom_monitoring_clien.Base.Float.{FloatOps}
use phantom_monitoring_clien.Plugins.Nvml.{store}
use phantom_monitoring_clien.Plugins.Nvml.Store.{store_inside}
use phantom_monitoring_clien.Plugins.CpuTemperature.Names.{if-cases, core_name_lem}
use phantom_monitoring_clien.Plugins.CpuTemperature.{
  Sensors, SensorsChip, SensorsFeature, SensorsSubfeature, RequestedFeatures, get_chipnum, is_asked,
  add_feature, core_name, add_named, add_core, add_subfeatures, add_features, add_chips, end_init,
  init, Temperatures,
}

abbrev pub Within {ℓ} : {A : Type ℓ} → A → List A → Type ℓ
Within x xs = (k : ℕ) × (get_elem? xs k ≡ some x)

-- The sensor of a name: a temperature input of a feature "Core ..." of a coretemp chip, whose name is
-- made of the number of the chip and the number in the label, and is among the events.
abbrev pub IsSource :
    List SensorsChip → List Bytes → SensorsChip → SensorsSubfeature → Bytes → Type 0
IsSource chips events c s name =
    (f : SensorsFeature) × (text : Bytes) × (chipnum : Bytes) × ((Within c chips)
      × (str_eq c.chip_prefix (codes "coretemp") ≡ true)
      × (get_chipnum c.features [] ≡ some chipnum))
    × ((Within f c.features)
        × (f.is_temp ≡ true)
        × (f.label ≡ some text)
        × (starts_with (codes "Core") text ≡ true))
    × ((Within s f.subfeatures) × (s.is_temp_input ≡ true))
    × (name ≡ codes "CPU" ++ (chipnum ++ (codes ":core" ++ drop 5 text)))
    × (is_asked events name ≡ true)

-- What is known of a chip, a subfeature and the name that is stored with them.
abbrev pub Source : Type 1
Source = SensorsChip → SensorsSubfeature → Bytes → Type 0

-- Slot `i` has a chip and a subfeature, of which this is known.
abbrev pub IsSlot : Source → RequestedFeatures → ℕ → Type 0
IsSlot Ok r i =
    (c : SensorsChip) × (s : SensorsSubfeature) × (r.chip i ≡ some c)
    × (r.subfeature i ≡ some s)
    × Ok c s (r.events i)

-- The slots below event_i are such, within the arrays.
abbrev pub IsListed : Source → RequestedFeatures → Type 0
IsListed Ok r = (r.event_i ≤ 32) × ((i : ℕ) → i < r.event_i → IsSlot Ok r i)

stored_at :
    {V : Type 0} (k : ℕ) (v : V) (a b : ℕ → V)
    → store k v a ≡ some b
    → (b k ≡ v) × ((j : ℕ) → j < k → b j ≡ a j)
stored_at k v a b e =
    let (inside, at) = store_inside k v a b e in (at k ∙ ground arith, λ j lt. at j ∙ ground arith)

add_feature-IsListed :
    (Ok : Source) (c : SensorsChip) (s : SensorsSubfeature) (label : Bytes)
    (r r' : RequestedFeatures)
    → Ok c s label
    → IsListed Ok r
    → add_feature c s label r ≡ some r'
    → IsListed Ok r'
unfolding add_feature
add_feature-IsListed Ok c s label r r' asked (room, slots) e =
    let (chips, e1, l1) = >>=-eq-some (store r.event_i (some c) r.chip) _ e in
    let (subs, e2, l2) = >>=-eq-some (store r.event_i (some s) r.subfeature) _ l1 in
    let (names, e3, l3) = >>=-eq-some (store r.event_i label r.events) _ l2 in
    let (c_at, c_below) = stored_at r.event_i (some c) r.chip chips e1 in
    let (s_at, s_below) = stored_at r.event_i (some s) r.subfeature subs e2 in
    let (n_at, n_below) = stored_at r.event_i label r.events names e3 in
    let next : RequestedFeatures = record {
      chip = chips;
      subfeature = subs;
      events = names;
      event_i = r.event_i + 1;
    } in
    let same : next ≡ r' = cc in
    let old : (i : ℕ) → i < r.event_i → IsSlot Ok next i = λ i lt.
      let (c', s', ce, se, ne) = slots i lt in
      (c', s', c_below i lt ∙ ce, s_below i lt ∙ se, subst (Ok c' s') (sym (n_below i lt)) ne) in
    let new : IsSlot Ok next r.event_i = (c, s, c_at, s_at, subst (Ok c s) (sym n_at) asked) in
    let inside : r.event_i < 32 = (store_inside r.event_i label r.events names e3).0 in
    subst (IsListed Ok) same (
      omega arith,
      λ i lt. elim (Bool-cases (i == r.event_i)) [
        | inl here ↦ let at : r.event_i ≡ i = ground arith in subst (IsSlot Ok next) at new
        | inr other ↦ old i (ground arith)
      ],
    )

module _ (Ok : Source) (events : List Bytes) (c : SensorsChip) (chipnum : Bytes) where
  -- What has to be known of a label's core.
  abbrev Named : Bytes → SensorsSubfeature → Type 0
  Named text s =
      (name : Bytes)
      → name ≡ codes "CPU" ++ (chipnum ++ (codes ":core" ++ drop 5 text))
      → is_asked events name ≡ true
      → Ok c s name

  -- The same of a feature, and of features.
  abbrev Inputs : Option Bytes → List SensorsSubfeature → Type 0
  Inputs label ss =
      (s : SensorsSubfeature) (text : Bytes)
      → Within s ss
      → s.is_temp_input ≡ true
      → label ≡ some text
      → starts_with (codes "Core") text ≡ true
      → Named text s

  abbrev Features : List SensorsFeature → Type 0
  Features fs = (f : SensorsFeature) → Within f fs → f.is_temp ≡ true → Inputs f.label f.subfeatures

  add_named-IsListed :
      (s : SensorsSubfeature) (r : RequestedFeatures) (name : Bytes) (b : Bool × RequestedFeatures)
      → (is_asked events name ≡ true → Ok c s name)
      → IsListed Ok r
      → add_named events c s r name ≡ some b
      → IsListed Ok b.1
  unfolding add_named
  add_named-IsListed s r name b ok l e =
      elim (if-cases (is_asked events name) (add_feature c s name r >>= (λ r'. some (true, r')))
        (some (false, r)) (some b) e) [
          | inr (unasked, kept) ↦
              let same : (false, r) ≡ b = cc in subst (λ x. IsListed Ok x.1) same l
          | inl (asked, added) ↦
              let (r', e1, l1) = >>=-eq-some (add_feature c s name r) _ added in
              let same : (true, r') ≡ b = cc in
              subst (λ x. IsListed Ok x.1) same
                (add_feature-IsListed Ok c s name r r' (ok asked) l e1)
        ]

  add_core-IsListed :
      (label : Bytes) (s : SensorsSubfeature) (r : RequestedFeatures) (b : Bool × RequestedFeatures)
      → (starts_with (codes "Core") label ≡ true → Named label s)
      → IsListed Ok r
      → add_core events c chipnum label s r ≡ some b
      → IsListed Ok b.1
  unfolding add_core
  add_core-IsListed label s r b ok l e =
      elim (if-cases (starts_with (codes "Core") label)
        (core_name chipnum label >>= add_named events c s r) (some (false, r)) (some b) e) [
          | inr (miss, kept) ↦ let same : (false, r) ≡ b = cc in subst (λ x. IsListed Ok x.1) same l
          | inl (hit, inner) ↦
              let (name, e1, l1) = >>=-eq-some (core_name chipnum label) _ inner in
              add_named-IsListed s r name b (ok hit name (core_name_lem chipnum label name e1)) l l1
        ]

  add_subfeatures-IsListed :
      (label : Option Bytes) (ss : List SensorsSubfeature) (r r' : RequestedFeatures)
      → Inputs label ss
      → IsListed Ok r
      → add_subfeatures events c chipnum label ss r ≡ some r'
      → IsListed Ok r'
  unfolding add_subfeatures
  add_subfeatures-IsListed label [] r r' ok l e =
      let same : r ≡ r' = cc in subst (IsListed Ok) same l
  add_subfeatures-IsListed label (s ∷ ss) r r' ok l e =
      let later : Inputs label ss = λ s' text (k, at). ok s' text (suc k, at) in
      let rest : RequestedFeatures → Option RequestedFeatures =
        λ x. add_subfeatures events c chipnum label ss x in
      let after : Bool × RequestedFeatures → Option RequestedFeatures =
        λ b. if b.0 then some b.1 else rest b.1 in
      elim (if-cases s.is_temp_input
        (label >>= (λ text. add_core events c chipnum text s r >>= after)) (rest r) (some r') e) [
          | inr (other, more) ↦ add_subfeatures-IsListed label ss r r' later l more
          | inl (input, inner) ↦
              let (text, e1, l1) = >>=-eq-some label _ inner in
              let (b, e2, l2) = >>=-eq-some (add_core events c chipnum text s r) _ l1 in
              let now = add_core-IsListed text s r b (ok s text (0, refl) input e1) l e2 in
              elim (if-cases b.0 (some b.1) (rest b.1) (some r') l2) [
                | inl (broken, done) ↦ let same : b.1 ≡ r' = cc in subst (IsListed Ok) same now
                | inr (on, more) ↦ add_subfeatures-IsListed label ss b.1 r' later now more
              ]
        ]

  add_features-IsListed :
      (fs : List SensorsFeature) (r r' : RequestedFeatures)
      → Features fs
      → IsListed Ok r
      → add_features events c chipnum fs r ≡ some r'
      → IsListed Ok r'
  unfolding add_features
  add_features-IsListed [] r r' ok l e = let same : r ≡ r' = cc in subst (IsListed Ok) same l
  add_features-IsListed (f ∷ fs) r r' ok l e =
      let later : Features fs = λ f' (k, at). ok f' (suc k, at) in
      let rest : RequestedFeatures → Option RequestedFeatures =
        λ x. add_features events c chipnum fs x in
      elim (if-cases f.is_temp (add_subfeatures events c chipnum f.label f.subfeatures r >>= rest)
        (rest r) (some r') e) [
          | inr (other, more) ↦ add_features-IsListed fs r r' later l more
          | inl (temp, inner) ↦
              let (m, e1, l1) =
                >>=-eq-some (add_subfeatures events c chipnum f.label f.subfeatures r) _ inner in
              add_features-IsListed fs m r' later
                (add_subfeatures-IsListed f.label f.subfeatures r m (ok f (0, refl) temp) l e1) l1
        ]

add_chips-IsListed :
    (Ok : Source) (events : List Bytes) (cs : List SensorsChip) (r r' : RequestedFeatures)
    → ((c : SensorsChip) (chipnum : Bytes)
        → Within c cs
        → str_eq c.chip_prefix (codes "coretemp") ≡ true
        → get_chipnum c.features [] ≡ some chipnum
        → Features Ok events c chipnum c.features)
    → IsListed Ok r
    → add_chips events cs r ≡ some r'
    → IsListed Ok r'
unfolding add_chips
add_chips-IsListed Ok events [] r r' ok l e = let same : r ≡ r' = cc in subst (IsListed Ok) same l
add_chips-IsListed Ok events (c ∷ cs) r r' ok l e =
    let rest : RequestedFeatures → Option RequestedFeatures = λ x. add_chips events cs x in
    elim (if-cases (str_eq c.chip_prefix (codes "coretemp"))
      (get_chipnum c.features []
        >>= (λ chipnum. add_features events c chipnum c.features r >>= rest))
      (rest r) (some r') e) [
        | inr (other, more) ↦
            add_chips-IsListed Ok events cs r r' (λ c' n (k, at). ok c' n (suc k, at)) l more
        | inl (core, inner) ↦
            let (chipnum, e1, l1) = >>=-eq-some (get_chipnum c.features []) _ inner in
            let (m, e2, l2) = >>=-eq-some (add_features events c chipnum c.features r) _ l1 in
            add_chips-IsListed Ok events cs m r' (λ c' n (k, at). ok c' n (suc k, at))
              (add_features-IsListed Ok events c chipnum c.features r m
                (ok c chipnum (0, refl) core e1) l e2)
              l2
      ]

module _ (fl : FloatOps) where
  pub init-IsListed :
      (l : Sensors) (events : List Bytes) (s s' : Temperatures fl)
      → init fl l events s ≡ some (true, s')
      → IsListed (IsSource l.chips events) s'.0
        × (s'.1.num_events ≡ s'.0.event_i)
        × (s'.1.events ≡ s'.0.events)
  unfolding init
  init-IsListed l events (r, metrics) s' e =
      let start : RequestedFeatures = record r { events = metrics.events; event_i = 0 } in
      let last : RequestedFeatures → Option (Bool × Temperatures fl) =
        λ r'. some (end_init fl r' metrics) in
      elim (if-cases l.starts (add_chips events l.chips start >>= last) (some (false, (r, metrics)))
        (some (true, s')) e) [
          | inr (failed, kept) ↦ absurd cc
          | inl (started, inner) ↦
              let (r', e1, l1) = >>=-eq-some (add_chips events l.chips start) last inner in
              let listed =
                add_chips-IsListed (IsSource l.chips events) events l.chips start r'
                  (λ c chipnum in_chips core num f in_features temp input text in_inputs is_input
                      label hit name named asked.
                    (
                      f,
                      text,
                      chipnum,
                      (in_chips, core, num),
                      (in_features, temp, label, hit),
                      (in_inputs, is_input),
                      named,
                      asked,
                    ))
                  (omega arith, λ i lt. absurd (omega arith)) e1 in
              let same : end_init fl r' metrics ≡ (true, s') = cc in
              elim (if-cases (r'.event_i == 0) (false, (r', record metrics { events = r'.events }))
                (true, (r', record metrics { events = r'.events; num_events = r'.event_i }))
                (true, s') same) [
                  | inl (empty, failed) ↦ absurd cc
                  | inr (full, done) ↦
                      let pair : (
                        r',
                        record metrics { events = r'.events; num_events = r'.event_i },
                      )
                          ≡ s' =
                        ap (λ x. x.1) done in
                      subst
                        (λ x.
                          IsListed (IsSource l.chips events) x.0
                          × (x.1.num_events ≡ x.0.event_i)
                          × (x.1.events ≡ x.0.events))
                        pair (listed, refl, refl)
                ]
        ]
