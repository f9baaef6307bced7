-- ===== src/Plugins/BoardPower/Averages.antt =====
-- Which value the samples of the buffers leave in a channel.
use phantom_monitoring_clien.Base.{
  ℕ, zero, suc, ◌+◌, ◌≡◌, refl, sym, subst, ap, ap₂, ◌∙◌, List, [], ◌∷◌, ◌++◌, Option, none, some,
  true, ◌&&◌, if◌then◌else◌, ◌==◌, arith, >>=-eq-some, ◌>>=◌, inl, inr, Bool-cases,
}
use phantom_monitoring_clien.Base.Float.{FloatOps}
use phantom_monitoring_clien.Plugins.BoardPower.{Board, MyChannel, set_channel}
use phantom_monitoring_clien.Plugins.BoardPower.Same.{
  SameLabels, SameLabels-trans, take_value-SameLabels,
}
use phantom_monitoring_clien.Plugins.BoardPower.Sample.{
  IioSample, chan_device, chan_index, take_value, print_sample, print_samples, magnitude, refill,
  next_average,
}

-- The samples of the buffers, one after the other.
abbrev pub samples_of : List (Option (List IioSample)) → List IioSample
samples_of [] = []
samples_of (none ∷ buffers) = []
samples_of (some ss ∷ buffers) = ss ++ samples_of buffers

module _ (fl : FloatOps) where
  open fl use {Double, of_nat, add, sub, div}

  -- The device and the channel of a sample.
  abbrev pub place : Board fl → IioSample → Option (ℕ × ℕ)
  place b s =
      chan_device s.device_id b.nb_devices 0
      >>= (λ i. chan_index fl (b.my_chn i) s.channel b.nb_channels 0 >>= (λ j. some (i, j)))

  -- What a sample at a place does to the count and the average of channel j of device i: the channel
  -- with number 0 counts, and the average moves by its share of the difference.
  abbrev pub move : ℕ → ℕ → ℕ → Option (ℕ × ℕ) → ℕ × Double → ℕ × Double
  move i j vabs none x = x
  move i j vabs (some (i', j')) (count, value) =
      let n = if i == i' && j' == 0 then count + 1 else count in
      (
        n,
        if i == i' && j == j' then add value (div (sub (of_nat vabs) value) (of_nat n)) else value,
      )

  -- The average of channel j of device i after some samples.
  abbrev pub follow : Board fl → ℕ → ℕ → List IioSample → ℕ × Double → ℕ × Double
  follow b i j [] x = x
  follow b i j (s ∷ ss) x = follow b i j ss (move i j (magnitude s.val) (place b s) x)

  abbrev pub now : Board fl → ℕ → ℕ → ℕ × Double
  now b i j = (b.nb_samples i, (b.my_chn i j).value)

  chan_index-SameLabels :
      (chn chn' : ℕ → MyChannel fl) (pointer n j : ℕ)
      → ((k : ℕ) → (chn' k).iio ≡ (chn k).iio)
      → chan_index fl chn' pointer n j ≡ chan_index fl chn pointer n j
  unfolding chan_index
  chan_index-SameLabels chn chn' pointer zero j same = refl
  chan_index-SameLabels chn chn' pointer (suc n) j same =
      rw (same j, chan_index-SameLabels chn chn' pointer n (suc j) same) refl

  place-SameLabels : (b b' : Board fl) (s : IioSample) → SameLabels fl b b' → place b' s ≡ place b s
  place-SameLabels b b' s (devices, channels, labels, iio, scale) =
      ap₂ ◌>>=◌ (ap (λ n. chan_device s.device_id n 0) devices) (λ k i.
        (ap (λ n. chan_index fl (b'.my_chn i) s.channel n 0) channels
            ∙ chan_index-SameLabels (b.my_chn i) (b'.my_chn i) s.channel b.nb_channels 0 (iio i))
          k
        >>= (λ j. some (i, j)))

  follow-SameLabels :
      (b b' : Board fl) (i j : ℕ) (ss : List IioSample) (x : ℕ × Double)
      → SameLabels fl b b'
      → follow b' i j ss x ≡ follow b i j ss x
  follow-SameLabels b b' i j [] x same = refl
  follow-SameLabels b b' i j (s ∷ ss) x same =
      ap (λ p. follow b' i j ss (move i j (magnitude s.val) p x)) (place-SameLabels b b' s same)
      ∙ follow-SameLabels b b' i j ss _ same

  take_value-same :
      (b : Board fl) (i j vabs : ℕ)
      → now (take_value fl i j vabs b) i j ≡ move i j vabs (some (i, j)) (now b i j)
  unfolding take_value set_channel next_average
  take_value-same b i j vabs =
      let here : (i == i) ≡ true = ground arith in
      let here' : (j == j) ≡ true = ground arith in rw (here, here') refl

  take_value-device :
      (b : Board fl) (i j j' vabs : ℕ)
      → now (take_value fl i j' vabs b) i j ≡ move i j vabs (some (i, j')) (now b i j)
  unfolding take_value set_channel next_average
  take_value-device b i j j' vabs =
      let here : (i == i) ≡ true = ground arith in
      elim (Bool-cases (j == j')) [
        | inl same ↦
            let e : j ≡ j' = ground arith in
            subst
              (λ k. now (take_value fl i k vabs b) i j ≡ move i j vabs (some (i, k)) (now b i j)) e
              (take_value-same b i j vabs)
        | inr other ↦ rw (here, other) refl
      ]

  take_value-move :
      (b : Board fl) (i j i' j' vabs : ℕ)
      → now (take_value fl i' j' vabs b) i j ≡ move i j vabs (some (i', j')) (now b i j)
  unfolding take_value set_channel next_average
  take_value-move b i j i' j' vabs = elim (Bool-cases (i == i')) [
    | inl same ↦
        let e : i ≡ i' = ground arith in
        subst (λ k. now (take_value fl k j' vabs b) i j ≡ move i j vabs (some (k, j')) (now b i j))
          e (take_value-device b i j j' vabs)
    | inr other ↦ rw other refl
  ]

  print_sample-move :
      (s : IioSample) (b c : Board fl)
      → print_sample fl s b ≡ some c
      → SameLabels fl b c
        × ((i j : ℕ) → now c i j ≡ move i j (magnitude s.val) (place b s) (now b i j))
  unfolding print_sample
  print_sample-move s b c e =
      let (i', at, e') = >>=-eq-some (chan_device s.device_id b.nb_devices 0) _ e in
      let (j', at', e'') =
        >>=-eq-some (chan_index fl (b.my_chn i') s.channel b.nb_channels 0) _ e' in
      let same : take_value fl i' j' (magnitude s.val) b ≡ c = cc in
      let here : place b s ≡ some (i', j') = rw (at, at') refl in
      (
        subst (SameLabels fl b) same (take_value-SameLabels fl i' j' (magnitude s.val) b),
        λ i j.
            ap (λ d. now d i j) (sym same)
            ∙ take_value-move b i j i' j' (magnitude s.val)
            ∙ ap (λ p. move i j (magnitude s.val) p (now b i j)) (sym here),
      )

  follow-append :
      (b : Board fl) (i j : ℕ) (xs ys : List IioSample) (x : ℕ × Double)
      → follow b i j (xs ++ ys) x ≡ follow b i j ys (follow b i j xs x)
  follow-append b i j [] ys x = refl
  follow-append b i j (s ∷ xs) ys x = follow-append b i j xs ys _

  -- The labels stay, and each channel has followed its samples.
  abbrev pub Followed : Board fl → Board fl → List IioSample → Type 0
  Followed b b' ss = SameLabels fl b b' × ((i j : ℕ) → now b' i j ≡ follow b i j ss (now b i j))

  Followed-nil : (b : Board fl) → Followed b b []
  Followed-nil b = ((refl, refl, (λ i j. refl), (λ i j. refl), λ i j. refl), λ i j. refl)

  Followed-append :
      (b c d : Board fl) (xs ys : List IioSample)
      → Followed b c xs
      → Followed c d ys
      → Followed b d (xs ++ ys)
  Followed-append b c d xs ys (same, moved) (same', moved') = (
    SameLabels-trans fl b c d same same',
    λ i j.
        moved' i j
        ∙ follow-SameLabels b c i j ys (now c i j) same
        ∙ ap (follow b i j ys) (moved i j)
        ∙ sym (follow-append b i j xs ys (now b i j)),
  )

  print_samples-Followed :
      (ss : List IioSample) (b b' : Board fl) → print_samples fl ss b ≡ some b' → Followed b b' ss
  unfolding print_samples
  print_samples-Followed [] b b' e =
      let same : b ≡ b' = cc in subst (λ x. Followed b x []) same (Followed-nil b)
  print_samples-Followed (s ∷ ss) b b' e =
      let (c, first, later) = >>=-eq-some (print_sample fl s b) (print_samples fl ss) e in
      Followed-append b c b' (s ∷ []) ss (print_sample-move s b c first)
        (print_samples-Followed ss c b' later)

  -- Buffers that are all refilled move every channel by all their samples, in order.
  pub refill-Followed :
      (buffers : List (Option (List IioSample))) (b b' : Board fl)
      → refill fl buffers b ≡ some (true, b')
      → Followed b b' (samples_of buffers)
  unfolding refill
  refill-Followed [] b b' e =
      let same : b ≡ b' = cc in subst (λ x. Followed b x []) same (Followed-nil b)
  refill-Followed (none ∷ buffers) b b' e = absurd cc
  refill-Followed (some ss ∷ buffers) b b' e =
      let (c, first, later) = >>=-eq-some (print_samples fl ss b) (refill fl buffers) e in
      Followed-append b c b' ss (samples_of buffers) (print_samples-Followed ss b c first)
        (refill-Followed buffers c b' later)
