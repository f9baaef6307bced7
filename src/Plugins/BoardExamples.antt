-- ===== src/Plugins/BoardExamples.antt =====
-- The theorems on the connector Board_power at concrete inputs.
use phantom_monitoring_clien.Base.{ℕ, [], Bytes, codes, if◌then◌else◌, ◌==◌, ℤ}
use phantom_monitoring_clien.Plugins.Metrics.{PluginMetrics}
use phantom_monitoring_clien.Plugins.Examples.{whole}
use phantom_monitoring_clien.Plugins.BoardPower.{Board, MyChannel}
use phantom_monitoring_clien.Plugins.BoardPower.Sample.{IioSample}

abbrev no_channel : MyChannel whole
no_channel = record { label = []; unit = []; scale = 0; value = 0; iio = 0 }

abbrev channel : Bytes → Bytes → ℕ → ℕ → MyChannel whole
channel label unit scale iio = record {
  label = label;
  unit = unit;
  scale = scale;
  value = 0;
  iio = iio;
}

-- One device with two channels.
abbrev board : Board whole
board = record {
  nb_devices = 1;
  nb_channels = 2;
  nb_samples = λ i. 0;
  sampling_freq = λ i. ℤ.pos 0;
  my_chn = λ i j.
      if j == 0
      then channel (codes "device0:power") (codes "mW") 25 7
      else channel (codes "device0:current") (codes "mA") 1 8;
}

abbrev reading : IioSample
reading = record { device_id = codes "iio:device0"; channel = 7; val = ℤ.negsuc 9 }

abbrev no_metrics : PluginMetrics ℕ
no_metrics = record { events = λ i. []; values = λ i. 0; num_events = 0 }
