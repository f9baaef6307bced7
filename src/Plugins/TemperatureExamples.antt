-- ===== src/Plugins/TemperatureExamples.antt =====
-- The theorem on the connector CPU_temperature at a concrete input.
use phantom_monitoring_clien.Base.{
  Option, ℕ, ◌≡◌, ◌≤◌, ◌<◌, refl, List, [], ◌∷◌, none, some, true, false, Bytes, codes,
}
use phantom_monitoring_clien.Plugins.Examples.{whole}
use phantom_monitoring_clien.Plugins.Nvml.{store}
use phantom_monitoring_clien.Plugins.CpuTemperature.{
  Sensors, SensorsChip, SensorsFeature, SensorsSubfeature, Temperatures, copy_rest, get_chipnum,
  my_label, is_asked, add_feature, core_name, add_named, add_core, add_subfeatures, add_features,
  add_chips, init, sample,
}
use phantom_monitoring_clien.Plugins.CpuTemperature.Listed.{IsSource}
use phantom_monitoring_clien.Plugins.CpuTemperature.Sampled.{init-sample}
use phantom_monitoring_clien.Base.{Option, str_eq, starts_with, if◌then◌else◌, ◌==◌}

abbrev input : SensorsSubfeature
input = record { is_temp_input = true; number = 4 }

abbrev critical : SensorsSubfeature
critical = record { is_temp_input = false; number = 5 }

abbrev package_feature : SensorsFeature
package_feature = record {
  is_temp = true;
  label = some (codes "Physical id 0");
  subfeatures = input ∷ [];
}

abbrev core_feature : SensorsFeature
core_feature = record {
  is_temp = true;
  label = some (codes "Core 3");
  subfeatures = critical ∷ input ∷ [];
}

abbrev fan : SensorsFeature
fan = record { is_temp = false; label = none; subfeatures = [] }

abbrev cpu : SensorsChip
cpu = record {
  chip_prefix = codes "coretemp";
  features = package_feature ∷ fan ∷ core_feature ∷ [];
}

abbrev disk : SensorsChip
disk = record { chip_prefix = codes "drivetemp"; features = fan ∷ [] }

abbrev sensors : Sensors
sensors = record { starts = true; chips = disk ∷ cpu ∷ [] }

abbrev asked : List Bytes
asked = codes "CPU1:core0" ∷ codes "CPU0:core3" ∷ []

abbrev before : Temperatures whole
before = (
  record { chip = λ j. none; subfeature = λ j. none; events = λ j. []; event_i = 0 },
  record { events = λ j. []; values = λ j. 0; num_events = 0 },
)

abbrev names : ℕ → Bytes
names j = if j == 0 then codes "CPU0:core3" else []

abbrev after : Temperatures whole
after = (
  record {
    chip = λ j. if j == 0 then some cpu else none;
    subfeature = λ j. if j == 0 then some input else none;
    events = names;
    event_i = 1;
  },
  record { events = names; values = λ j. 0; num_events = 1 },
)

abbrev warm : Option ℕ
warm = some 41

starting : init whole sensors asked before ≡ some (true, after)
unfolding init add_chips add_features add_subfeatures add_core add_named core_name my_label
    copy_rest get_chipnum is_asked add_feature store starts_with str_eq
starting = refl

init-sample_example :
    (1 ≤ 32)
    × (vs : ℕ → ℕ) × (sample whole (λ c n. warm) 7 after
        ≡ some (after.0, record after.1 { values = vs }))
    × ((j : ℕ)
        → j < 1
        → (c : SensorsChip) × (sub : SensorsSubfeature) × IsSource sensors.chips asked c sub
            (names j)
          × (warm ≡ warm)
          × (vs j ≡ 41))
init-sample_example =
    init-sample whole sensors asked before after (λ c n. warm) (λ j. 41) 7 starting
      (λ j c s lt is_chip is_sub. refl)
