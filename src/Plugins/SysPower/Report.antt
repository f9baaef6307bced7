-- ===== src/Plugins/SysPower/Report.antt =====
-- Which metrics `mf_Linux_sys_power_to_json` reports.
use phantom_monitoring_clien.Base.{
  ℕ, zero, suc, ◌<◌, ◌≡◌, refl, sym, ap, ap₂, subst, ◌∙◌, List, [], ◌∷◌, ◌++◌, Bool, true, false,
  Bytes, codes, str_eq, if◌then◌else◌, map, concat, get_or, has_flag, arith, Bool-cases, inl, inr,
  append_assoc, append-nil,
}
use phantom_monitoring_clien.Base.Float.{FloatOps}
use phantom_monitoring_clien.Plugins.Metrics.{
  PluginMetrics, flag_init_lem, flag_init_some, contains,
}
use phantom_monitoring_clien.Plugins.Fill.{kept, row}
use phantom_monitoring_clien.Plugins.SysPower.{linux_sys_power_metrics, Machine, Globals}
use phantom_monitoring_clien.Plugins.SysPower.Sample.{
  is_skipped, append_metrics, to_json, Power, ready, init, sample,
}
use phantom_monitoring_clien.Plugins.SysPower.Start.{
  name_list, filled_names, flag_of, init-ready, ready-flag, sample-flag,
}

abbrev when_asked : Bool → Bytes → List Bytes
when_asked true name = name ∷ []
when_asked false name = []

abbrev in_order : Bool → Bool → Bool → Bool → Bool → List Bytes
in_order all cpu net ram io =
    when_asked all (codes "estimated_total_power")
    ++ when_asked cpu (codes "estimated_CPU_power")
    ++ when_asked net (codes "estimated_wifi_power")
    ++ when_asked ram (codes "estimated_memory_power")
    ++ when_asked io (codes "estimated_disk_power")

-- The metrics that are among the events, in the order of a report.
abbrev pub wanted : List Bytes → List Bytes
wanted events =
    in_order (contains events (codes "estimated_total_power"))
      (contains events (codes "estimated_CPU_power"))
      (contains events (codes "estimated_wifi_power"))
      (contains events (codes "estimated_memory_power"))
      (contains events (codes "estimated_disk_power"))

abbrev unskipped : ℕ → List Bytes → List Bytes
unskipped flag [] = []
unskipped flag (b ∷ bs) =
    let rest = unskipped flag bs in if is_skipped flag b then rest else b ∷ rest

unskipped-name_list :
    (flag : ℕ)
    → unskipped flag (kept (name_list flag))
      ≡ in_order
          (has_flag flag 0x10)
          (has_flag flag 0x01)
          (has_flag flag 0x02)
          (has_flag flag 0x04)
          (has_flag flag 0x08)
unfolding str_eq is_skipped
unskipped-name_list flag = ground arith

wanted-flags :
    (events : List Bytes)
    → (let f = flag_of events in
        in_order
          (has_flag f 0x10)
          (has_flag f 0x01)
          (has_flag f 0x02)
          (has_flag f 0x04)
          (has_flag f 0x08))
      ≡ wanted events
wanted-flags events =
    let bit =
      λ (k : ℕ) (lt : k < 5). flag_init_lem linux_sys_power_metrics events k (omega arith) lt in
    rw
      (
        bit 0 (omega arith),
        bit 1 (omega arith),
        bit 2 (omega arith),
        bit 3 (omega arith),
        bit 4 (omega arith),
      )
      refl

module _ (fl : FloatOps) where
  -- The metrics from the one numbered `i` on that no `continue` passes over, with their values.
  abbrev pub reported : ℕ → PluginMetrics fl.Double → ℕ → ℕ → List (Bytes × fl.Double)
  reported flag metrics i zero = []
  reported flag metrics i (suc n) =
      let rest = reported flag metrics (suc i) n in
      if is_skipped flag (metrics.events i)
      then rest
      else (metrics.events i, metrics.values i) ∷ rest

  abbrev pub entry : Bytes × fl.Double → Bytes
  entry (name, value) =
      if fl.is_nonneg value then codes ",\"" ++ name ++ codes "\":" ++ fl.print_3 value else []

  abbrev pub entries : List (Bytes × fl.Double) → Bytes
  entries ps = concat (map entry ps)

  reported-names :
      (flag : ℕ) (metrics : PluginMetrics fl.Double) (i n : ℕ)
      → map (λ p. p.0) (reported flag metrics i n) ≡ unskipped flag (row metrics.events i n)
  reported-names flag metrics i zero = refl
  reported-names flag metrics i (suc n) =
      let rest = reported-names flag metrics (suc i) n in
      elim (Bool-cases (is_skipped flag (metrics.events i))) [
        | inl skip ↦ rw skip rest
        | inr keep ↦ rw keep (ap (◌∷◌ (metrics.events i)) rest)
      ]

  append_metrics-entries :
      (flag : ℕ) (metrics : PluginMetrics fl.Double) (n i : ℕ) (json : Bytes)
      → append_metrics fl flag metrics n i json ≡ json ++ entries (reported flag metrics i n)
  unfolding append_metrics
  append_metrics-entries flag metrics zero i json = sym (append-nil json)
  append_metrics-entries flag metrics (suc n) i json =
      elim (Bool-cases (is_skipped flag (metrics.events i))) [
        | inl skip ↦ rw skip (append_metrics-entries flag metrics n (suc i) json)
        | inr keep ↦ rw keep (elim (Bool-cases (fl.is_nonneg (metrics.values i))) [
          | inl sampled ↦
              rw sampled (append_metrics-entries flag metrics n (suc i) _ ∙ simp append_assoc refl)
          | inr unset ↦ rw unset (append_metrics-entries flag metrics n (suc i) json)
        ])
      ]

  -- What `to_json` writes before the metrics.
  abbrev pub header : Globals fl → Bytes
  header g =
      codes "\"type\":\"Linux_sys_power\""
      ++ codes ",\"local_timestamp\":\""
      ++ fl.print_1 (fl.mul g.after_time (fl.literal 1000 0))
      ++ codes "\""

  -- Of what an initialisation returns: the metrics that the report after a sample passes on are those
  -- wanted, and the JSON text is its header and their entries.
  abbrev pub Reports : Machine fl → List Bytes → Bool × Power fl → Type 0
  Reports now events t =
      let u = sample fl now t.1 in
      let r = reported u.0.flag u.1 0 u.1.num_events in
      (map (λ p. p.0) r ≡ wanted events) × (to_json fl u ≡ header u.0 ++ entries r)

  -- Take an initialisation with the flag at 0, as the program starts, whose events name one of the
  -- metrics, and a sample that follows. Then the metrics that the report passes on are those asked for,
  -- in the order total, CPU, wifi, memory and disk, and the JSON text is its header and the entries of
  -- those of them whose value is not negative; a metric that was only stored along with another is not
  -- in it.
  pub to_json-wanted :
      (boot now : Machine fl) (events : List Bytes) (s : Power fl) (k : ℕ)
      → s.0.flag ≡ 0
      → k < 5
      → contains events (get_or linux_sys_power_metrics k []) ≡ true
      → Reports now events (init fl boot events s)
  unfolding to_json ready sample
  to_json-wanted boot now events s k fresh lt asked =
      let ok = flag_init_some linux_sys_power_metrics events k (omega arith) lt asked in
      let f = flag_of events in
      let t = ready fl boot f s in
      let u = sample fl now t in
      subst (Reports now events) (sym (init-ready fl boot events s fresh ok)) (
        reported-names u.0.flag u.1 0 u.1.num_events
            ∙ (ap₂ unskipped (sample-flag fl now t ∙ ready-flag fl boot f s)
                  (filled_names f s.1.events)
                ∙ (unskipped-name_list f ∙ wanted-flags events)),
        append_metrics-entries u.0.flag u.1 u.1.num_events 0 (header u.0),
      )
