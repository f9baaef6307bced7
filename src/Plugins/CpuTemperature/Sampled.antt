-- ===== src/Plugins/CpuTemperature/Sampled.antt =====
-- That a sample of CPU_temperature finds in the arrays of the init what it reads.
use phantom_monitoring_clien.Base.{
  ℕ, zero, suc, ◌+◌, ◌<◌, ◌≤◌, ◌≡◌, refl, sym, subst, ◌∙◌, List, some, true, Bytes, if◌then◌else◌,
  ◌==◌, arith, Bool-cases, inl, inr, ◌>>=◌,
}
use phantom_monitoring_clien.Base.Float.{FloatOps}
use phantom_monitoring_clien.Plugins.Nvml.Store.{store_room}
use phantom_monitoring_clien.Plugins.CpuTemperature.{
  Sensors, SensorsChip, SensorsSubfeature, RequestedFeatures, init, Temperatures, Readings,
  next_value, sample_events, sample,
}
use phantom_monitoring_clien.Plugins.CpuTemperature.Listed.{Source, IsSource, IsSlot, init-IsListed}

module _ (fl : FloatOps) where
  open fl use {Double, single}

  -- Every slot below `n` that has a chip and a subfeature reads `readings`.
  abbrev pub Reads : Readings fl → RequestedFeatures → (ℕ → Double) → ℕ → Type 0
  Reads read r readings n =
      (j : ℕ) (c : SensorsChip) (s : SensorsSubfeature)
      → j < n
      → r.chip j ≡ some c
      → r.subfeature j ≡ some s
      → read c s.number ≡ some (readings j)

  next_value-read :
      (read : Readings fl) (c : SensorsChip) (s : SensorsSubfeature) (value v : Double)
      → read c s.number ≡ some v
      → next_value fl read c s value ≡ v
  next_value-read read c s value v e = rw (next_value, e) refl

  sample_events-read :
      (Ok : Source) (read : Readings fl) (r : RequestedFeatures) (readings : ℕ → Double) (m n i : ℕ)
      (value : Double) (values : ℕ → Double)
      → i + n ≡ m
      → m ≤ 32
      → ((j : ℕ) → j < m → IsSlot Ok r j)
      → Reads read r readings m
      → (vs : ℕ → Double) × (sample_events fl read r n i value values ≡ some vs)
        × ((j : ℕ) → j < i → vs j ≡ values j)
        × ((j : ℕ) → i ≤ j → j < m → vs j ≡ single (readings j))
  unfolding sample_events
  sample_events-read Ok read r readings m zero i value values e room slots reads =
      (values, refl, (λ j lt. refl), λ j le lt. absurd (omega arith))
  sample_events-read Ok read r readings m (suc n) i value values e room slots reads =
      let (c, s, is_chip, is_sub, asked) = slots i (omega arith) in
      let v = single (readings i) in
      let next : ℕ → Double = λ j. if j == i then v else values j in
      let (vs, done, before, after) =
        sample_events-read Ok read r readings m n (suc i) (readings i) next (omega arith) room slots
          reads in
      (
        vs,
        rw
            (
              sample_events,
              is_chip,
              is_sub,
              ◌>>=◌,
              next_value-read read c s value (readings i)
                  (reads i c s (omega arith) is_chip is_sub),
              store_room i v values (omega arith),
            )
            done,
        (λ j lt. before j (omega arith) ∙ ground arith),
        λ j le lt. elim (Bool-cases (j == i)) [
          | inl here ↦
              let at : j ≡ i = ground arith in rw at (before i (omega arith) ∙ ground arith)
          | inr later ↦ after j (ground arith) lt
        ],
      )

  -- After an init that succeeds, at most 32 names are stored. Where each stored sensor reads, a sample
  -- stores at the index of each name, as a float, what is read of the sensor of this name: a temperature
  -- input of a feature of a coretemp chip, where the name, which is one of the events, is made of the
  -- number of the chip and that in the feature's label.
  pub init-sample :
      (l : Sensors) (events : List Bytes) (s s' : Temperatures fl) (read : Readings fl)
      (readings : ℕ → Double) (value : Double)
      → init fl l events s ≡ some (true, s')
      → Reads read s'.0 readings s'.1.num_events
      → (s'.1.num_events ≤ 32)
        × (vs : ℕ → Double) × (sample fl read value s' ≡ some (s'.0, record s'.1 { values = vs }))
        × ((j : ℕ)
            → j < s'.1.num_events
            → (c : SensorsChip) × (sub : SensorsSubfeature) × IsSource l.chips events c sub
                (s'.1.events j)
              × (read c sub.number ≡ some (readings j))
              × (vs j ≡ single (readings j)))
  unfolding sample
  init-sample l events s s' read readings value e reads =
      let ((room, slots), count, names) = init-IsListed fl l events s s' e in
      let slots' : (j : ℕ) → j < s'.1.num_events → IsSlot (IsSource l.chips events) s'.0 j =
        λ j lt. slots j (omega arith) in
      let (vs, done, before, at) =
        sample_events-read (IsSource l.chips events) read s'.0 readings s'.1.num_events
          s'.1.num_events 0 value s'.1.values (omega arith) (omega arith) slots' reads in
      (
        omega arith,
        vs,
        rw done refl,
        λ j lt.
            let (c, sub, is_chip, is_sub, asked) = slots' j lt in
            (
              c,
              sub,
              subst (λ f. IsSource l.chips events c sub (f j)) (sym names) asked,
              reads j c sub lt is_chip is_sub,
              at j (omega arith) lt,
            ),
      )
