-- ===== src/Plugins/BoardPower/Sample.antt =====
-- `mf_Board_power_sample` and `mf_Board_power_to_json`. A refilled buffer is the list of the samples for
-- which libiio calls print_sample; a sample of no known channel, which is stored out of bounds, is `none`.
use phantom_monitoring_clien.Base.{
  ℕ, zero, suc, ◌+◌, List, [], ◌∷◌, ◌++◌, Option, none, some, Bool, true, false, Bytes, codes,
  str_eq, if◌then◌else◌, ◌==◌, ltb, ◌&&◌, ◌>>=◌, ℤ,
}
use phantom_monitoring_clien.Base.Float.{FloatOps}
use phantom_monitoring_clien.Base.Numeral.Decimal.{decimal}
use phantom_monitoring_clien.Plugins.Metrics.{PluginMetrics}
use phantom_monitoring_clien.Plugins.BoardPower.{Board, MyChannel, Power, set_channel, find_event}

-- The channel's device and pointer, and the short in the buffer.
pub record IioSample : Type 0 where
  pub device_id : Bytes
  pub channel : ℕ
  pub val : ℤ

abbrev pub magnitude : ℤ → ℕ
magnitude (ℤ.pos n) = n
magnitude (ℤ.negsuc n) = suc n

-- `chan_device`, for `n` devices from `i` on; none is -1.
unfoldable pub chan_device : Bytes → ℕ → ℕ → Option ℕ
chan_device device_id zero i = none
chan_device device_id (suc n) i =
    let later = chan_device device_id n (suc i) in
    if str_eq device_id (codes "iio:device" ++ decimal i) then some i else later

module _ (fl : FloatOps) where
  open fl use {Double, of_nat, literal, add, sub, mul, div, single, print_1, print_3}

  -- `chan_index`, for `n` channels from `j` on.
  unfoldable pub chan_index : (ℕ → MyChannel fl) → ℕ → ℕ → ℕ → Option ℕ
  chan_index chn pointer zero j = none
  chan_index chn pointer (suc n) j =
      let later = chan_index chn pointer n (suc j) in
      if (chn j).iio == pointer then some j else later

  -- The average of `n` values, from that of the values before and the last one.
  unfoldable pub next_average : ℕ → ℕ → Double → Double
  next_average n vabs value = add value (div (sub (of_nat vabs) value) (of_nat n))

  -- What print_sample does to channel j of device i.
  unfoldable pub take_value : ℕ → ℕ → ℕ → Board fl → Board fl
  take_value i j vabs b =
      let count = if j == 0 then b.nb_samples i + 1 else b.nb_samples i in
      let c = b.my_chn i j in
      record b {
        nb_samples = λ k. if k == i then count else b.nb_samples k;
        my_chn = set_channel fl i j (record c { value = next_average count vabs c.value }) b.my_chn;
      }

  unfoldable pub print_sample : IioSample → Board fl → Option (Board fl)
  unfolding take_value
  print_sample s b = chan_device s.device_id b.nb_devices 0 >>= λ i.
      chan_index (b.my_chn i) s.channel b.nb_channels 0 >>= λ j.
      some (take_value i j (magnitude s.val) b)

  unfoldable pub print_samples : List IioSample → Board fl → Option (Board fl)
  print_samples [] b = some b
  print_samples (s ∷ ss) b = print_sample s b >>= print_samples ss

  -- The loop over the devices' buffers; none among them is a refill that fails.
  unfoldable pub refill : List (Option (List IioSample)) → Board fl → Option (Bool × Board fl)
  refill [] b = some (true, b)
  refill (none ∷ buffers) b = some (false, b)
  refill (some samples ∷ buffers) b = print_samples samples b >>= refill buffers

  -- The loop of `filter`, for `n` events from `idx` on.
  unfoldable pub filter_events : Board fl → (ℕ → Bytes) → ℕ → ℕ → (ℕ → Double) → ℕ → Double
  filter_events b events zero idx values = values
  filter_events b events (suc n) idx values = elim (find_event fl b (events idx)) [
    | none ↦ filter_events b events n (suc idx) values
    | some (i, j) ↦
        filter_events b events n (suc idx) (λ k.
          if k == idx then single (mul (b.my_chn i j).value (b.my_chn i j).scale) else values k)
  ]

  unfoldable pub filter : Board fl → PluginMetrics Double → PluginMetrics Double
  filter b m = record m { values = filter_events b m.events m.num_events 0 m.values }

  -- The channels beyond the counts keep their values.
  unfoldable pub reset_my_channels_value : Board fl → Board fl
  reset_my_channels_value b = record b {
    nb_samples = λ i. if ltb i b.nb_devices then 0 else b.nb_samples i;
    my_chn = λ i j.
        if ltb i b.nb_devices && ltb j b.nb_channels
        then record (b.my_chn i j) { value = literal 0 0 }
        else b.my_chn i j;
  }

  unfoldable pub sample : List (Option (List IioSample)) → Power fl → Option (Bool × Power fl)
  sample buffers (b, m) = refill buffers b >>= λ r.
      some (if r.0 then (true, (reset_my_channels_value r.1, filter r.1 m)) else (false, (r.1, m)))

  -- The inner loop of `mf_Board_power_to_json`, for `n` of the sampled events from `ii` on.
  unfoldable pub append_event : PluginMetrics Double → Bytes → ℕ → ℕ → Bytes → Bytes
  append_event m event zero ii json = json
  append_event m event (suc n) ii json = append_event m event n (suc ii) (
      if str_eq event (m.events ii)
      then json ++ codes ",\"" ++ m.events ii ++ codes "\":" ++ print_3 (m.values ii)
      else json)

  unfoldable pub append_events : PluginMetrics Double → List Bytes → Bytes → Bytes
  append_events m [] json = json
  append_events m (e ∷ es) json = append_events m es (append_event m e m.num_events 0 json)

  unfoldable pub to_json : ℕ → ℕ → List Bytes → PluginMetrics Double → Bytes
  to_json tv_sec tv_nsec events m = append_events m events (
      codes "\"type\":\"Board_power\""
      ++ codes ",\"local_timestamp\":\""
      ++ print_1
          (add (mul (of_nat tv_sec) (literal 1000 0)) (div (of_nat tv_nsec) (literal 1000000 0)))
      ++ codes "\"")
