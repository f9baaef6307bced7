-- ===== src/Plugins/Nvml/Devices.antt =====
-- How many devices the 32 slots of the metrics hold, and where the metrics of a device stand.
use phantom_monitoring_clien.Base.{
  ℕ, zero, suc, ◌∷◌, ◌++◌, Option, codes, ◌+◌, ◌*◌, ◌<◌, ◌≤◌, ◌≡◌, refl, ap, ◌∙◌, List, [], none,
  some, true, false, Bytes, length, get_or, arith,
}
use phantom_monitoring_clien.Base.Float.{FloatOps}
use phantom_monitoring_clien.Base.Numeral.Decimal.{decimal}
use phantom_monitoring_clien.Plugins.Nvml.{
  Device, reading, Nvml, Gpus, init, sample, name_devices, device_names, device_values,
  have_handles, events_are_all_not_valid,
}
use phantom_monitoring_clien.Plugins.Nvml.Slots.{store_devices-Holds, store_devices_overflow}

module _ (fl : FloatOps) where
  length-device_values : (l : Nvml) (i : ℕ) → length (device_values fl (l.device i)) ≡ 7
  unfolding device_values
  length-device_values l i = refl

  length-device_names : (i : ℕ) → length (device_names i) ≡ 7
  unfolding device_names
  length-device_names i = refl

  -- A percentage, a rate or a temperature as a float; -1 where the query fails.
  abbrev whole_number : Option ℕ → fl.Double
  whole_number none = fl.sub (fl.literal 0 0) (fl.literal 1 0)
  whole_number (some v) = fl.single (fl.mul (fl.single (fl.of_nat v)) (fl.literal 1 0))

  -- Kilobytes per 20 ms as megabytes per second.
  abbrev rate : Option ℕ → fl.Double
  rate none = fl.sub (fl.literal 0 0) (fl.literal 1 0)
  rate (some v) = fl.single (fl.div (fl.single (fl.of_nat v)) (fl.literal 20 3))

  abbrev allocated : Option (ℕ × ℕ) → fl.Double
  allocated none = fl.sub (fl.literal 0 0) (fl.literal 1 0)
  allocated (some (used, total)) =
      fl.single (fl.div (fl.mul (fl.single (fl.of_nat used)) (fl.literal 100 0)) (fl.of_nat total))

  -- The names of the metrics, each with what it is to report of a device.
  abbrev pub table : Device → List (Bytes × fl.Double)
  table d =
      (
        codes "gpu_usage_rate",
        whole_number (elim d.utilization [ none ↦ none | some u ↦ some u.0 ]),
      )
      ∷ (
        codes "mem_usage_rate",
        whole_number (elim d.utilization [ none ↦ none | some u ↦ some u.1 ]),
      )
      ∷ (codes "mem_allocated", allocated d.memory)
      ∷ (codes "PCIe_snd_throughput", rate d.sent)
      ∷ (codes "PCIe_rcv_throughput", rate d.received)
      ∷ (codes "temperature", whole_number d.temperature)
      ∷ (codes "power", whole_number d.power)
      ∷ []

  abbrev pub row_of : Device → ℕ → Bytes × fl.Double
  row_of d j = get_or (table d) j ([], fl.literal 0 0)

  reading-row :
      (o : Option ℕ)
      → reading fl o (λ v. fl.mul (fl.single (fl.of_nat v)) (fl.literal 1 0)) ≡ whole_number o
  reading-row none = refl
  reading-row (some v) = refl

  rate-row :
      (o : Option ℕ)
      → reading fl o (λ v. fl.div (fl.single (fl.of_nat v)) (fl.literal 20 3)) ≡ rate o
  rate-row none = refl
  rate-row (some v) = refl

  values-row :
      (d : Device) (j : ℕ) → j < 7 → get_or (device_values fl d) j (fl.literal 0 0) ≡ (row_of d j).1
  unfolding device_values
  values-row d zero lt = reading-row _
  values-row d (suc zero) lt = reading-row _
  values-row d (suc (suc zero)) lt = elim d.memory [ none ↦ refl | some u ↦ refl ]
  values-row d (suc (suc (suc zero))) lt = rate-row _
  values-row d (suc (suc (suc (suc zero)))) lt = rate-row _
  values-row d (suc (suc (suc (suc (suc zero))))) lt = reading-row _
  values-row d (suc (suc (suc (suc (suc (suc zero)))))) lt = reading-row _
  values-row d (suc (suc (suc (suc (suc (suc (suc j))))))) lt = absurd (omega arith)

  names-row :
      (d : Device) (i j : ℕ)
      → j < 7
      → get_or (device_names i) j [] ≡ codes "GPU" ++ decimal i ++ codes ":" ++ (row_of d j).0
  unfolding device_names
  names-row d i zero lt = refl
  names-row d i (suc zero) lt = refl
  names-row d i (suc (suc zero)) lt = refl
  names-row d i (suc (suc (suc zero))) lt = refl
  names-row d i (suc (suc (suc (suc zero)))) lt = refl
  names-row d i (suc (suc (suc (suc (suc zero))))) lt = refl
  names-row d i (suc (suc (suc (suc (suc (suc zero)))))) lt = refl
  names-row d i (suc (suc (suc (suc (suc (suc (suc j))))))) lt = absurd (omega arith)

  -- The two arrays hold, for device d and metric j, at slot 7 * d + j, the name of the metric with the
  -- number of the device, and what the table has for the metric of this name.
  abbrev pub Pairs : Nvml → Gpus fl → ℕ → Type 0
  Pairs l u n =
      (d j : ℕ)
      → d < n
      → j < 7
      → (u.1.events (7 * d + j)
          ≡ codes "GPU" ++ decimal d ++ codes ":" ++ (row_of (l.device d) j).0)
        × (u.1.values (7 * d + j) ≡ (row_of (l.device d) j).1)

  init-name_devices :
      (l : Nvml) (events : List Bytes) (s : Gpus fl) (n : ℕ)
      → events_are_all_not_valid events ≡ false
      → l.loads ≡ true
      → l.count ≡ some n
      → init fl l events s ≡ name_devices fl l n s.1
  unfolding init
  init-name_devices l events s n valid loads counted = simp (init, valid, loads, counted) refl

  -- Where an event is valid, the library loads and counts at most four devices, the initialisation and
  -- a sample after it stay within the 32 slots; the initialisation succeeds exactly if every device
  -- gives its handle, and after the sample the slot 7 * d + j holds the name and the value of row j of
  -- the table, which says what is reported of device d under each name, for each of the devices and of
  -- the seven metrics.
  pub init-sample-Pairs :
      (l : Nvml) (events : List Bytes) (s : Gpus fl) (n : ℕ)
      → events_are_all_not_valid events ≡ false
      → l.loads ≡ true
      → l.count ≡ some n
      → n ≤ 4
      → (t : Gpus fl) × (init fl l events s ≡ some (have_handles l 0 n, t))
        × ((u : Gpus fl) × (sample fl l t ≡ some u) × (u.1.num_events ≡ 7 * n) × Pairs l u n)
  unfolding name_devices sample
  init-sample-Pairs l events s n valid loads counted few =
      let (names, named, (before, name_at)) =
        store_devices-Holds [] device_names 0 n 0 s.1.events length-device_names (omega arith) in
      let (values, sampled, (before', value_at)) =
        store_devices-Holds (fl.literal 0 0) (λ i. device_values fl (l.device i)) 0 n 0 s.1.values
          (length-device_values l) (omega arith) in
      (
        (n, record { events = names; values = s.1.values; num_events = 7 * n }),
        init-name_devices l events s n valid loads counted ∙ rw named refl,
        (
          (n, record { events = names; values = values; num_events = 7 * n }),
          rw sampled refl,
          refl,
          λ d j ld lj. (
            ap names (omega arith)
                ∙ name_at d j ld lj
                ∙ ap (λ x. get_or (device_names x) j []) (omega arith)
                ∙ names-row (l.device d) d j lj,
            ap values (omega arith)
                ∙ value_at d j ld lj
                ∙ ap (λ x. get_or (device_values fl (l.device x)) j (fl.literal 0 0)) (omega arith)
                ∙ values-row (l.device d) j lj,
          ),
        ),
      )

  -- With five devices or more, where an event is valid and the library loads, the initialisation stores
  -- behind the 32 slots.
  pub init_overflow :
      (l : Nvml) (events : List Bytes) (s : Gpus fl) (n : ℕ)
      → events_are_all_not_valid events ≡ false
      → l.loads ≡ true
      → l.count ≡ some n
      → 4 < n
      → init fl l events s ≡ none
  unfolding name_devices
  init_overflow l events s n valid loads counted many =
      init-name_devices l events s n valid loads counted
      ∙ rw
          (store_devices_overflow [] device_names 0 n 0 s.1.events length-device_names (omega arith)
            (omega arith))
          refl
