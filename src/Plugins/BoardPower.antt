-- ===== src/Plugins/BoardPower.antt =====
-- src/plugins/Board_power/src/mf_Board_power_connector.c: the channels of the power meters of an ACME
-- board. libiio is a parameter: the devices that the board has, their channels and attributes. `exit` is
-- `none`, and so is a store behind the 32 events.
use phantom_monitoring_clien.Base.{
  ℕ, zero, suc, ◌+◌, List, [], ◌∷◌, ◌++◌, Option, none, some, Bool, true, false, ◌&&◌, not, Bytes,
  codes, str_eq, starts_with, if◌then◌else◌, ◌==◌, ltb, leb, length, ◌>>=◌, ℤ, atoi,
}
use phantom_monitoring_clien.Base.Float.{FloatOps}
use phantom_monitoring_clien.Base.Numeral.Decimal.{decimal}
use phantom_monitoring_clien.Plugins.Metrics.{PluginMetrics}
use phantom_monitoring_clien.Plugins.Nvml.{store}
pub mod Sample
pub mod Same
pub mod Averages
pub mod Named

-- A channel of a device: the pointer that libiio gives for it, its name, its attribute `scale`.
pub record IioChannel : Type 0 where
  pub pointer : ℕ
  pub id : Bytes
  pub scale : Option Bytes

-- `frequency` is none where the read of the attribute gives 0.
pub record IioDevice : Type 0 where
  pub is_there : Bool
  pub takes_ratio : Bool
  pub frequency : Option Bytes
  pub name : Bytes
  pub channels : List IioChannel
  pub has_buffer : Bool

-- The board that a name stands for, if it can be reached.
abbrev pub Context : Type 0
Context = Option (List IioDevice)

abbrev pub max_devices : ℕ
max_devices = 8

abbrev pub max_channels : ℕ
max_channels = 5

-- The label and the unit of a channel, or none for a channel of another kind.
unfoldable pub kind_of : Bytes → Option (Bytes × Bytes)
kind_of id =
    if starts_with (codes "power") id
    then some (codes "power", codes "mW")
    else if starts_with (codes "current") id
    then some (codes "current", codes "mA")
    else if starts_with (codes "voltage1") id
    then some (codes "vbus", codes "mV")
    else if starts_with (codes "voltage0") id
    then some (codes "vshunt", codes "mV")
    else none

unfoldable pub label_of : ℕ → Bytes → Bytes
label_of device_idx kind = codes "device" ++ decimal device_idx ++ codes ":" ++ kind

-- Where the inner loop has found a channel of device i, the outer loop ends.
abbrev pub place_or : ℕ → Option ℕ → Option (ℕ × ℕ) → Option (ℕ × ℕ)
place_or i none later = later
place_or i (some j) later = some (i, j)

module _ (fl : FloatOps) where
  open fl use {Double, literal}

  -- `struct my_channel`
  pub record MyChannel : Type 0 where
    pub label : Bytes
    pub unit : Bytes
    pub scale : Double
    pub value : Double
    pub iio : ℕ

  pub record Board : Type 0 where
    pub nb_devices : ℕ
    pub nb_channels : ℕ
    pub nb_samples : ℕ → ℕ
    pub sampling_freq : ℕ → ℤ
    pub my_chn : ℕ → ℕ → MyChannel

  abbrev pub Power : Type 0
  Power = Board × PluginMetrics Double

  unfoldable pub set_channel : ℕ → ℕ → MyChannel → (ℕ → ℕ → MyChannel) → ℕ → ℕ → MyChannel
  set_channel i j c my_chn i' j' = if i' == i && j' == j then c else my_chn i' j'

  -- The results of libiio are texts; `atof` is a parameter.
  module _ (atof : Bytes → Double) where
    unfoldable pub scale_of : Option Bytes → Double
    scale_of none = literal 1 0
    scale_of (some text) = atof text

    -- A channel whose kind is unknown keeps label and unit.
    unfoldable pub describe : ℕ → IioChannel → MyChannel → MyChannel
    describe device_idx ch c = elim (kind_of ch.id) [
      | none ↦ record c { scale = scale_of ch.scale; value = literal 0 0; iio = ch.pointer }
      | some (kind, unit) ↦ record {
        label = label_of device_idx kind;
        unit = unit;
        scale = scale_of ch.scale;
        value = literal 0 0;
        iio = ch.pointer;
      }
    ]

    unfoldable pub init_channels : ℕ → ℕ → List IioChannel → (ℕ → ℕ → MyChannel) → ℕ → ℕ → MyChannel
    init_channels device_idx i [] my_chn = my_chn
    init_channels device_idx i (ch ∷ chs) my_chn =
        init_channels device_idx (suc i) chs
          (set_channel device_idx i (describe device_idx ch (my_chn device_idx i)) my_chn)

    -- nb_channels is that of the last device.
    unfoldable pub init_ina2xx_channels : IioDevice → ℕ → Board → Option Board
    init_ina2xx_channels dev device_idx b =
        if str_eq dev.name (codes "ina226") && leb (length dev.channels) max_channels
        then some (record b {
          nb_channels = length dev.channels;
          nb_samples = λ i. if i == device_idx then 0 else b.nb_samples i;
          my_chn = init_channels device_idx 0 dev.channels b.my_chn;
        })
        else none

    -- One round of the loop over the devices, up to its early returns.
    unfoldable pub enable_device : IioDevice → ℕ → Board → Option (Bool × Board)
    enable_device dev device_idx b =
        if dev.is_there && dev.takes_ratio
        then elim dev.frequency [
          | none ↦ some (false, b)
          | some text ↦
              let b' = record b {
                sampling_freq = λ i. if i == device_idx then atoi text else b.sampling_freq i;
              } in
              init_ina2xx_channels dev device_idx b' >>= λ b''. some (dev.has_buffer, b'')
        ]
        else some (false, b)

    unfoldable pub enable_devices : List IioDevice → ℕ → Board → Option (Bool × Board)
    enable_devices [] device_idx b = some (true, b)
    enable_devices (dev ∷ devs) device_idx b = enable_device dev device_idx b >>= λ r.
        if r.0 then enable_devices devs (suc device_idx) r.1 else some (false, r.1)

    unfoldable pub mf_acme_is_enabled : Context → Board → Option (Bool × Board)
    mf_acme_is_enabled none b = some (false, b)
    mf_acme_is_enabled (some devs) b =
        let b' = record b { nb_devices = length devs } in
        if ltb max_devices (length devs) then some (false, b') else enable_devices devs 0 b'

  -- The inner loop over the channels of a device, `n` of them from `j` on.
  unfoldable pub find_channel : (ℕ → MyChannel) → Bytes → ℕ → ℕ → Option ℕ
  find_channel chn event zero j = none
  find_channel chn event (suc n) j =
      let later = find_channel chn event n (suc j) in
      if str_eq (chn j).label event then some j else later

  -- The loop over the devices, `n` of them from `i` on: the first channel with the label.
  unfoldable pub find_label : Board → Bytes → ℕ → ℕ → Option (ℕ × ℕ)
  find_label b event zero i = none
  find_label b event (suc n) i =
      place_or i (find_channel (b.my_chn i) event b.nb_channels 0) (find_label b event n (suc i))

  abbrev pub find_event : Board → Bytes → Option (ℕ × ℕ)
  find_event b event = find_label b event b.nb_devices 0

  -- The loop of `create_EventSets`, from index `idx` on; num_events is stored at the end.
  unfoldable pub create_events :
      Board → List Bytes → ℕ → PluginMetrics Double → Option (Bool × PluginMetrics Double)
  create_events b [] idx m = some (true, record m { num_events = idx })
  create_events b (e ∷ es) idx m = elim (find_event b e) [
    | none ↦ some (false, m)
    | some place ↦ store idx e m.events >>= λ events.
        create_events b es (suc idx) (record m { events = events })
  ]

  unfoldable pub create_event_sets :
      Board → List Bytes → PluginMetrics Double → Option (Bool × PluginMetrics Double)
  unfolding create_events
  create_event_sets b events m = create_events b events 0 m

  unfoldable pub init : (Bytes → Double) → Context → List Bytes → Power → Option (Bool × Power)
  init atof ctx events (b, m) = mf_acme_is_enabled atof ctx b >>= λ r.
      if r.0
      then (create_event_sets r.1 events m >>= (λ s. some (s.0, (r.1, s.1))))
      else some (false, (r.1, m))
