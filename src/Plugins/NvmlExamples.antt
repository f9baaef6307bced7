-- ===== src/Plugins/NvmlExamples.antt =====
-- The theorems on NVML at concrete inputs: a machine with two devices, and one with five.
use phantom_monitoring_clien.Base.{
  ℕ, ◌*◌, ◌≡◌, refl, List, [], ◌∷◌, none, some, true, false, Bytes, codes, str_eq, arith,
}
use phantom_monitoring_clien.Plugins.Examples.{whole}
use phantom_monitoring_clien.Plugins.Nvml.{
  Nvml, Device, Gpus, init, sample, have_handles, events_are_all_not_valid, count_events,
  count_event,
}
use phantom_monitoring_clien.Plugins.Nvml.Devices.{Pairs, init-sample-Pairs, init_overflow}

abbrev gpu : ℕ → Device
gpu i = record {
  has_handle = true;
  utilization = some (3, 4);
  memory = none;
  sent = some 5;
  received = some 6;
  temperature = some i;
  power = some 7;
}

abbrev two_gpus : Nvml
two_gpus = record { loads = true; count = some 2; device = gpu }

abbrev five_gpus : Nvml
five_gpus = record { loads = true; count = some 5; device = gpu }

abbrev no_gpus : Gpus whole
no_gpus = (0, record { events = λ i. []; values = λ i. 0; num_events = 0 })

abbrev power_event : List Bytes
power_event = codes "power" ∷ []

power_event_valid : events_are_all_not_valid power_event ≡ false
unfolding events_are_all_not_valid count_events count_event str_eq
power_event_valid = refl

init-sample-Pairs_example :
    (t : Gpus whole) × (init whole two_gpus power_event no_gpus
      ≡ some (have_handles two_gpus 0 2, t))
    × ((u : Gpus whole) × (sample whole two_gpus t ≡ some u)
        × (u.1.num_events ≡ 7 * 2)
        × Pairs whole two_gpus u 2)
init-sample-Pairs_example =
    init-sample-Pairs whole two_gpus power_event no_gpus 2 power_event_valid refl refl (omega arith)

init_overflow_example : init whole five_gpus power_event no_gpus ≡ none
init_overflow_example =
    init_overflow whole five_gpus power_event no_gpus 5 power_event_valid refl refl (omega arith)
