-- ===== src/Plugins/BoardPower/Named.antt =====
-- Which value stands under which name: `create_EventSets`, the samples and `filter` together.
use phantom_monitoring_clien.Base.{ℕ, List, Option, none, some, Bytes}
use phantom_monitoring_clien.Base.Float.{FloatOps}
use phantom_monitoring_clien.Plugins.BoardPower.{Board, find_event}
use phantom_monitoring_clien.Plugins.BoardPower.Averages.{follow, now}
use phantom_monitoring_clien.Plugins.BoardPower.Sample.{IioSample}

module _ (fl : FloatOps) where
  open fl use {Double, literal, mul, single}

  -- The value of the first channel with the label times its scale, as a float.
  abbrev pub scaled_at : Board fl → Option (ℕ × ℕ) → Double
  scaled_at b none = literal 0 0
  scaled_at b (some (i, j)) = single (mul (b.my_chn i j).value (b.my_chn i j).scale)

  abbrev pub scaled : Board fl → Bytes → Double
  scaled b event = scaled_at b (find_event fl b event)

module _ (fl : FloatOps) where
  -- The average of the first channel with the label, after some samples, times its scale, as a float.
  abbrev pub averaged_at : Board fl → List IioSample → Option (ℕ × ℕ) → fl.Double
  averaged_at b ss none = fl.literal 0 0
  averaged_at b ss (some (i, j)) =
      fl.single (fl.mul (follow fl b i j ss (now fl b i j)).1 (b.my_chn i j).scale)

  abbrev pub averaged : Board fl → List IioSample → Bytes → fl.Double
  averaged b ss event = averaged_at b ss (find_event fl b event)
