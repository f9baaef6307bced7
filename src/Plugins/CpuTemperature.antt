-- ===== src/Plugins/CpuTemperature.antt =====
-- src/plugins/CPU_temperature/src/mf_CPU_temperature_connector.c: the temperatures of the cores. The
-- library lm-sensors is a parameter: whether it starts, the chips it detects with their features, and
-- what each subfeature reads. What the code does out of the bounds of its arrays is `none`.
pub mod Names
pub mod Listed
pub mod Sampled
use phantom_monitoring_clien.Base.{
  ℕ, zero, suc, ◌+◌, ◌-◌, List, [], ◌∷◌, ◌++◌, Option, none, some, Bool, true, false, ◌||◌, Bytes,
  codes, str_eq, starts_with, if◌then◌else◌, ◌==◌, ltb, length, drop, ◌>>=◌,
}
use phantom_monitoring_clien.Base.Float.{FloatOps}
use phantom_monitoring_clien.Plugins.Metrics.{PluginMetrics}
use phantom_monitoring_clien.Plugins.Nvml.{store}

pub record SensorsSubfeature : Type 0 where
  pub is_temp_input : Bool
  pub number : ℕ

-- The label is `none` where sensors_get_label gives NULL, on which the code crashes.
pub record SensorsFeature : Type 0 where
  pub is_temp : Bool
  pub label : Option Bytes
  pub subfeatures : List SensorsSubfeature

pub record SensorsChip : Type 0 where
  pub chip_prefix : Bytes
  pub features : List SensorsFeature

pub record Sensors : Type 0 where
  pub starts : Bool
  pub chips : List SensorsChip

-- requested_features with the names of its data, and event_i.
pub record RequestedFeatures : Type 0 where
  pub chip : ℕ → Option SensorsChip
  pub subfeature : ℕ → Option SensorsSubfeature
  pub events : ℕ → Bytes
  pub event_i : ℕ

-- `strncpy(to, label + k, strlen(label) - k)` into `size` bytes: what they hold before an end, which
-- the copy does not write.
unfoldable pub copy_rest : ℕ → ℕ → Bytes → Bytes → Option Bytes
copy_rest k size label to =
    if ltb (length label) k
    then none
    else if ltb size (length label - k)
    then none
    else some (drop k label ++ drop (length label - k) to)

-- chipnum: the loop over the features of a chip.
unfoldable pub get_chipnum : List SensorsFeature → Bytes → Option Bytes
get_chipnum [] chipnum = some chipnum
get_chipnum (f ∷ fs) chipnum =
    if f.is_temp
    then (f.label >>= (λ label.
        (if starts_with (codes "Physical id") label
          then copy_rest 12 2 label chipnum
          else some chipnum)
        >>= (λ chipnum'. get_chipnum fs chipnum')))
    else get_chipnum fs chipnum

-- `sprintf` of the two arrays of 2 and 3 bytes, which runs on where one has no end.
unfoldable pub my_label : Bytes → Bytes → Option Bytes
my_label chipnum corenum =
    if ltb (length chipnum) 2
    then if ltb (length corenum) 3
      then some (codes "CPU" ++ (chipnum ++ (codes ":core" ++ corenum)))
      else none
    else none

-- The loop over the events that sets the flag.
unfoldable pub is_asked : List Bytes → Bytes → Bool
is_asked [] label = false
is_asked (e ∷ es) label = str_eq e label || is_asked es label

unfoldable pub add_feature :
    SensorsChip → SensorsSubfeature → Bytes → RequestedFeatures → Option RequestedFeatures
add_feature c s label r = store r.event_i (some c) r.chip >>= (λ chips.
    store r.event_i (some s) r.subfeature >>= (λ subfeatures.
      store r.event_i label r.events >>= (λ names. some record {
        chip = chips;
        subfeature = subfeatures;
        events = names;
        event_i = r.event_i + 1;
      })))

-- corenum and my_label.
unfoldable pub core_name : Bytes → Bytes → Option Bytes
core_name chipnum label = copy_rest 5 3 label [] >>= my_label chipnum

-- A subfeature that is a temperature: whether the loop over the subfeatures breaks.
unfoldable pub add_named :
    List Bytes
    → SensorsChip
    → SensorsSubfeature
    → RequestedFeatures
    → Bytes
    → Option (Bool × RequestedFeatures)
add_named events c s r name =
    if is_asked events name
    then (add_feature c s name r >>= (λ r'. some (true, r')))
    else some (false, r)

module _ (events : List Bytes) (c : SensorsChip) (chipnum : Bytes) where
  unfoldable pub add_core :
      Bytes → SensorsSubfeature → RequestedFeatures → Option (Bool × RequestedFeatures)
  unfolding add_named core_name
  add_core label s r =
      if starts_with (codes "Core") label
      then (core_name chipnum label >>= add_named events c s r)
      else some (false, r)

  unfoldable pub add_subfeatures :
      Option Bytes → List SensorsSubfeature → RequestedFeatures → Option RequestedFeatures
  add_subfeatures label [] r = some r
  add_subfeatures label (s ∷ ss) r =
      if s.is_temp_input
      then (label >>= (λ text.
          add_core text s r >>= (λ b. if b.0 then some b.1 else add_subfeatures label ss b.1)))
      else add_subfeatures label ss r

  unfoldable pub add_features : List SensorsFeature → RequestedFeatures → Option RequestedFeatures
  add_features [] r = some r
  add_features (f ∷ fs) r =
      if f.is_temp
      then (add_subfeatures f.label f.subfeatures r >>= (λ r'. add_features fs r'))
      else add_features fs r

unfoldable pub add_chips :
    List Bytes → List SensorsChip → RequestedFeatures → Option RequestedFeatures
add_chips events [] r = some r
add_chips events (c ∷ cs) r =
    if str_eq c.chip_prefix (codes "coretemp")
    then (get_chipnum c.features [] >>= (λ chipnum.
        add_features events c chipnum c.features r >>= (λ r'. add_chips events cs r')))
    else add_chips events cs r

module _ (fl : FloatOps) where
  open fl use {Double, of_nat, literal, add, mul, div, single, print_1, print_3}

  -- features_list and the metrics.
  abbrev pub Temperatures : Type 0
  Temperatures = RequestedFeatures × PluginMetrics Double

  abbrev pub end_init : RequestedFeatures → PluginMetrics Double → Bool × Temperatures
  end_init r metrics =
      if r.event_i == 0
      then (false, (r, record metrics { events = r.events }))
      else (true, (r, record metrics { events = r.events; num_events = r.event_i }))

  unfoldable pub init : Sensors → List Bytes → Temperatures → Option (Bool × Temperatures)
  init l events (r, metrics) =
      if l.starts
      then (add_chips events l.chips record r { events = metrics.events; event_i = 0 }
          >>= (λ r'. some (end_init r' metrics)))
      else some (false, (r, metrics))

  -- What sensors_get_value reads: `none` is an error, on which `value` keeps what it was.
  abbrev pub Readings : Type 0
  Readings = SensorsChip → ℕ → Option Double

  abbrev pub next_value : Readings → SensorsChip → SensorsSubfeature → Double → Double
  next_value read c s value = elim (read c s.number) [ none ↦ value | some v ↦ v ]

  -- The loop for `n` events from `i` on; `value` is a local that starts without a value.
  unfoldable pub sample_events :
      Readings → RequestedFeatures → ℕ → ℕ → Double → (ℕ → Double) → Option (ℕ → Double)
  sample_events read r zero i value values = some values
  sample_events read r (suc n) i value values = r.chip i >>= (λ c. r.subfeature i >>= (λ s.
      let v = next_value read c s value in
      store i (single v) values >>= (λ values'. sample_events read r n (suc i) v values')))

  unfoldable pub sample : Readings → Double → Temperatures → Option Temperatures
  sample read value (r, metrics) =
      sample_events read r metrics.num_events 0 value metrics.values
      >>= (λ values. some (r, record metrics { values = values }))

  unfoldable pub append_metrics : PluginMetrics Double → ℕ → ℕ → Bytes → Bytes
  append_metrics metrics i zero json = json
  append_metrics metrics i (suc n) json =
      append_metrics metrics (suc i) n
        (json ++ codes ",\"" ++ metrics.events i ++ codes "\":" ++ print_3 (metrics.values i))

  -- The clock is given in seconds and nanoseconds.
  unfoldable pub to_json : ℕ → ℕ → Temperatures → Bytes
  to_json tv_sec tv_nsec (r, metrics) = append_metrics metrics 0 metrics.num_events (
      codes "\"type\":\"CPU_temperature\""
      ++ codes ",\"local_timestamp\":\""
      ++ print_1
          (add (mul (of_nat tv_sec) (literal 1000 0)) (div (of_nat tv_nsec) (literal 1000000 0)))
      ++ codes "\"")
