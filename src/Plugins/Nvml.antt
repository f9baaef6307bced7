-- ===== src/Plugins/Nvml.antt =====
-- src/plugins/NVML/src/mf_NVML_connector.c: seven metrics of each GPU. The library NVML is a parameter:
-- whether it loads, how many devices it counts, and what each query of a device gives. A store behind
-- the 32 slots of the arrays is `none`.
use phantom_monitoring_clien.Base.{
  ℕ, zero, suc, ◌+◌, ◌-◌, ◌*◌, ◌/◌, ◌%◌, List, [], ◌∷◌, ◌++◌, Option, none, some, Bool, true, false,
  not, ◌&&◌, Bytes, codes, str_eq, strstr, if◌then◌else◌, ◌==◌, ltb, map, drop, ◌>>=◌,
}
use phantom_monitoring_clien.Base.Float.{FloatOps}
use phantom_monitoring_clien.Base.Numeral.Decimal.{decimal}
use phantom_monitoring_clien.Plugins.Metrics.{PluginMetrics, max_events_number}
pub mod Store
pub mod Slots
pub mod Devices

abbrev pub nvml_metrics : List Bytes
nvml_metrics =
    codes "gpu_usage_rate"
    ∷ codes "mem_usage_rate"
    ∷ codes "mem_allocated"
    ∷ codes "PCIe_snd_throughput"
    ∷ codes "PCIe_rcv_throughput"
    ∷ codes "temperature"
    ∷ codes "power"
    ∷ []

-- What the queries of a device give; `none` is an error.
pub record Device : Type 0 where
  pub has_handle : Bool
  pub utilization : Option (ℕ × ℕ)
  pub memory : Option (ℕ × ℕ)
  pub sent : Option ℕ
  pub received : Option ℕ
  pub temperature : Option ℕ
  pub power : Option ℕ

pub record Nvml : Type 0 where
  pub loads : Bool
  pub count : Option ℕ
  pub device : ℕ → Device

-- The inner loop of `events_are_all_not_valid`, and the outer.
unfoldable pub count_event : List Bytes → Bytes → ℕ → ℕ
count_event [] event counter = counter
count_event (m ∷ ms) event counter =
    count_event ms event (if str_eq event m then counter + 1 else counter)

unfoldable pub count_events : List Bytes → ℕ → ℕ
count_events [] counter = counter
count_events (e ∷ es) counter = count_events es (count_event nvml_metrics e counter)

unfoldable pub events_are_all_not_valid : List Bytes → Bool
events_are_all_not_valid events = count_events events 0 == 0

unfoldable pub device_names : ℕ → List Bytes
device_names i = map (λ m. codes "GPU" ++ decimal i ++ codes ":" ++ m) nvml_metrics

-- `a[k] = v`
unfoldable pub store : {V : Type 0} → ℕ → V → (ℕ → V) → Option (ℕ → V)
store k v a = if ltb k max_events_number then some (λ j. if j == k then v else a j) else none

unfoldable pub store_all : {V : Type 0} → ℕ → List V → (ℕ → V) → Option (ℕ → V)
store_all k [] a = some a
store_all k (v ∷ vs) a = store k v a >>= store_all (suc k) vs

-- The loop over `n` devices from `i` on, with seven stores from `k` on for each.
unfoldable pub store_devices : {V : Type 0} → (ℕ → List V) → ℕ → ℕ → ℕ → (ℕ → V) → Option (ℕ → V)
store_devices f i zero k a = some a
store_devices f i (suc n) k a = store_all k (f i) a >>= store_devices f (suc i) n (k + 7)

-- Whether all of `n` devices from `i` on give a handle.
unfoldable pub have_handles : Nvml → ℕ → ℕ → Bool
have_handles l i zero = true
have_handles l i (suc n) = (l.device i).has_handle && have_handles l (suc i) n

-- The text behind the first colon.
unfoldable pub after_colon : Bytes → Bytes
after_colon name = elim (strstr name (codes ":")) [ none ↦ [] | some s ↦ drop 1 s ]

module _ (fl : FloatOps) where
  open fl use {Double, of_nat, literal, add, sub, mul, div, single, is_nonneg, print_1, print_3}

  -- devices_count and the metrics.
  abbrev pub Gpus : Type 0
  Gpus = ℕ × PluginMetrics Double

  -- The names, and then the handles.
  unfoldable pub name_devices : Nvml → ℕ → PluginMetrics Double → Option (Bool × Gpus)
  unfolding store_devices
  name_devices l n metrics = store_devices device_names 0 n 0 metrics.events >>= λ names.
      some (have_handles l 0 n, (n, record metrics { events = names; num_events = 7 * n }))

  unfoldable pub init : Nvml → List Bytes → Gpus → Option (Bool × Gpus)
  init l events s =
      if events_are_all_not_valid events
      then some (false, s)
      else if not l.loads
      then some (false, s)
      else elim l.count [ none ↦ some (false, s) | some n ↦ name_devices l n s.1 ]

  -- A reading, or -1.0.
  abbrev pub reading : Option ℕ → (ℕ → Double) → Double
  reading none f = sub (literal 0 0) (literal 1 0)
  reading (some v) f = single (f v)

  -- The seven values of a device.
  unfoldable pub device_values : Device → List Double
  device_values d =
      reading (elim d.utilization [ none ↦ none | some u ↦ some u.0 ])
        (λ v. mul (single (of_nat v)) (literal 1 0))
      ∷ reading (elim d.utilization [ none ↦ none | some u ↦ some u.1 ])
          (λ v. mul (single (of_nat v)) (literal 1 0))
      ∷ elim d.memory [
        | none ↦ sub (literal 0 0) (literal 1 0)
        | some u ↦ single (div (mul (single (of_nat u.0)) (literal 100 0)) (of_nat u.1))
      ]
      ∷ reading d.sent (λ v. div (single (of_nat v)) (literal 20 3))
      ∷ reading d.received (λ v. div (single (of_nat v)) (literal 20 3))
      ∷ reading d.temperature (λ v. mul (single (of_nat v)) (literal 1 0))
      ∷ reading d.power (λ v. mul (single (of_nat v)) (literal 1 0))
      ∷ []

  unfoldable pub sample : Nvml → Gpus → Option Gpus
  unfolding store_devices
  sample l (n, metrics) =
      store_devices (λ i. device_values (l.device i)) 0 n 0 metrics.values >>= λ values.
      some (n, record metrics { values = values })

  -- The inner loop of `mf_NVML_to_json`, for `n` metrics from `ii` on; every name has a colon.
  unfoldable pub append_event : PluginMetrics Double → Bytes → ℕ → ℕ → Bytes → Bytes
  append_event metrics event ii zero json = json
  append_event metrics event ii (suc n) json =
      let sub_part = after_colon (metrics.events ii) in
      append_event metrics event (suc ii) n (
        if str_eq event sub_part && is_nonneg (metrics.values ii)
        then json ++ codes ",\"" ++ metrics.events ii ++ codes "\":" ++ print_3 (metrics.values ii)
        else json)

  unfoldable pub append_events : PluginMetrics Double → List Bytes → Bytes → Bytes
  append_events metrics [] json = json
  append_events metrics (e ∷ es) json =
      append_events metrics es (append_event metrics e 0 metrics.num_events json)

  -- The clock is given in seconds and nanoseconds.
  unfoldable pub to_json : ℕ → ℕ → Gpus → List Bytes → Bytes
  to_json tv_sec tv_nsec (n, metrics) events = append_events metrics events (
      codes "\"type\":\"NVML\""
      ++ codes ",\"local_timestamp\":\""
      ++ print_1
          (add (mul (of_nat tv_sec) (literal 1000 0)) (div (of_nat tv_nsec) (literal 1000000 0)))
      ++ codes "\"")
