-- ===== src/Plugins/BoardPower/Same.antt =====
-- What the samples leave of the board as it is.
use phantom_monitoring_clien.Base.{
  ℕ, zero, suc, ◌≡◌, refl, sym, ap, ap₂, ◌∙◌, List, [], ◌∷◌, some, ◌&&◌, Bytes, ◌==◌, All, arith,
  inl, inr, Bool-cases,
}
use phantom_monitoring_clien.Base.Float.{FloatOps}
use phantom_monitoring_clien.Plugins.BoardPower.{
  Board, MyChannel, set_channel, find_channel, place_or, find_label, find_event,
}
use phantom_monitoring_clien.Plugins.BoardPower.Sample.{take_value}

module _ (fl : FloatOps) where
  -- A channel of the board has the event's label.
  abbrev pub IsLabel : Board fl → Bytes → Type 0
  IsLabel b event = (place : ℕ × ℕ) × (find_event fl b event ≡ some place)

  -- The counts and what is known of the channels, which the samples leave as they are.
  abbrev pub SameLabels : Board fl → Board fl → Type 0
  SameLabels b b' =
      (b'.nb_devices ≡ b.nb_devices)
      × (b'.nb_channels ≡ b.nb_channels)
      × ((i j : ℕ) → (b'.my_chn i j).label ≡ (b.my_chn i j).label)
      × ((i j : ℕ) → (b'.my_chn i j).iio ≡ (b.my_chn i j).iio)
      × ((i j : ℕ) → (b'.my_chn i j).scale ≡ (b.my_chn i j).scale)

  find_channel-SameLabels :
      (chn chn' : ℕ → MyChannel fl) (event : Bytes) (n j : ℕ)
      → ((k : ℕ) → (chn' k).label ≡ (chn k).label)
      → find_channel fl chn' event n j ≡ find_channel fl chn event n j
  unfolding find_channel
  find_channel-SameLabels chn chn' event zero j same = refl
  find_channel-SameLabels chn chn' event (suc n) j same =
      rw (same j, find_channel-SameLabels chn chn' event n (suc j) same) refl

  find_label-SameLabels :
      (b b' : Board fl) (event : Bytes) (n i : ℕ)
      → SameLabels b b'
      → find_label fl b' event n i ≡ find_label fl b event n i
  unfolding find_label
  find_label-SameLabels b b' event zero i same = refl
  find_label-SameLabels b b' event (suc n) i (devices, channels, labels, pointers, scales) =
      let inner : find_channel fl (b'.my_chn i) event b'.nb_channels 0
          ≡ find_channel fl (b.my_chn i) event b.nb_channels 0 =
        ap (λ k. find_channel fl (b'.my_chn i) event k 0) channels
        ∙ find_channel-SameLabels (b.my_chn i) (b'.my_chn i) event b.nb_channels 0 (labels i) in
      ap₂ (place_or i) inner
        (find_label-SameLabels b b' event n (suc i) (devices, channels, labels, pointers, scales))

  set_channel-same :
      {X : Type 0} (part : MyChannel fl → X) (i j : ℕ) (c : MyChannel fl)
      (my_chn : ℕ → ℕ → MyChannel fl) (i' j' : ℕ)
      → part c ≡ part (my_chn i j)
      → part (set_channel fl i j c my_chn i' j') ≡ part (my_chn i' j')
  unfolding set_channel
  set_channel-same part i j c my_chn i' j' e = elim (Bool-cases (i' == i && j' == j)) [
    | inl here ↦
        let same : i' ≡ i = ground arith in
        let same' : j' ≡ j = ground arith in
        let it : part (set_channel fl i j c my_chn i' j') ≡ part c = rw here refl in
        it ∙ e ∙ ap₂ (λ x y. part (my_chn x y)) (sym same) (sym same')
    | inr other ↦ rw other refl
  ]

  pub take_value-SameLabels :
      (i j vabs : ℕ) (b : Board fl) → SameLabels b (take_value fl i j vabs b)
  unfolding take_value
  take_value-SameLabels i j vabs b = (
    refl,
    refl,
    λ i' j'. set_channel-same (λ c. c.label) i j _ b.my_chn i' j' refl,
    λ i' j'. set_channel-same (λ c. c.iio) i j _ b.my_chn i' j' refl,
    λ i' j'. set_channel-same (λ c. c.scale) i j _ b.my_chn i' j' refl,
  )

  pub SameLabels-trans : (a b c : Board fl) → SameLabels a b → SameLabels b c → SameLabels a c
  SameLabels-trans a b c (d, n, l, p, s) (d', n', l', p', s') =
      (d' ∙ d, n' ∙ n, (λ i j. l' i j ∙ l i j), (λ i j. p' i j ∙ p i j), λ i j. s' i j ∙ s i j)

  pub find_event-SameLabels :
      (b b' : Board fl) (event : Bytes)
      → SameLabels b b'
      → find_event fl b' event ≡ find_event fl b event
  find_event-SameLabels b b' event same =
      ap (λ n. find_label fl b' event n 0) same.0
      ∙ find_label-SameLabels b b' event b.nb_devices 0 same

  pub IsLabel-SameLabels :
      (b b' : Board fl) (es : List Bytes)
      → SameLabels b b'
      → All (IsLabel b) es
      → All (IsLabel b') es
  IsLabel-SameLabels b b' [] same all = tt
  IsLabel-SameLabels b b' (e ∷ es) same ((place, hit), all) =
      ((place, find_event-SameLabels b b' e same ∙ hit), IsLabel-SameLabels b b' es same all)
