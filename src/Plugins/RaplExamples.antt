-- ===== src/Plugins/RaplExamples.antt =====
-- The theorem on the connector RAPL_power at a concrete input.
use phantom_monitoring_clien.Base.{ℕ, List, [], ◌∷◌, true, Bytes, codes, if◌then◌else◌, ◌==◌}
use phantom_monitoring_clien.Plugins.Examples.{whole}
use phantom_monitoring_clien.Plugins.RaplPower.{Globals}
use phantom_monitoring_clien.Plugins.RaplPower.Sample.{Progress}

-- Two sockets.
abbrev globals : Globals whole
globals = record {
  rapl_is_available = true;
  num_sockets = 2;
  denominator = 1;
  before_time = 0;
  after_time = 10;
  epackage_before = λ j. 0;
  edram_before = λ j. 0;
  epackage_after = λ j. 500;
  edram_after = λ j. 70;
}

abbrev asked : List Bytes
asked = codes "dram_power" ∷ codes "total_power" ∷ []

abbrev named : ℕ → Bytes
named j =
    if j == 3
    then codes "package1:total_power"
    else if j == 2
    then codes "package0:total_power"
    else if j == 1
    then codes "package1:dram_power"
    else if j == 0
    then codes "package0:dram_power"
    else []

abbrev start : Progress whole
start = record { values = λ j. 0; i = 0; epackage_before = λ j. 0; edram_before = λ j. 0 }
