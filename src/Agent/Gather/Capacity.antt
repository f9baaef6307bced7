-- ===== src/Agent/Gather/Capacity.antt =====
-- The buffers of `gatherMetric`: JSON_LEN bytes for a sample, JSON_LEN * bulk_size for the array.
use phantom_monitoring_clien.Base.{
  ℕ, zero, suc, ◌+◌, ◌*◌, ◌<◌, ◌≤◌, ◌≡◌, refl, ◌++◌, Option, none, some, Bytes, codes, lt→ltb,
  length, arith, inl, inr, Bool-cases, length-append,
}
use phantom_monitoring_clien.Agent.Gather.{
  Sample, json_len, in_buffer, append_sample, collect_samples, set_last, gather_bulk,
}

abbrev pub FitsText : Bytes → Option Bytes → Type 0
FitsText static_text none = Unit
FitsText static_text (some t) = length static_text + length t + 2 < json_len

-- The text of sample `i`, if any, fits into `msg` with the static text, braces and a comma.
abbrev pub FitsMsg : Bytes → (ℕ → Sample) → ℕ → Type 0
FitsMsg static_text sample i = FitsText static_text (sample i).json

in_buffer_fits : (size : ℕ) (s : Bytes) → length s < size → in_buffer size s ≡ some s
in_buffer_fits size s h = rw (lt→ltb (length s) size h)

in_buffer_overflow : (size : ℕ) (s : Bytes) → size ≤ length s → in_buffer size s ≡ none
in_buffer_overflow size s h = ground arith

length-message :
    (static_text t : Bytes)
    → length (static_text ++ (t ++ codes "},")) ≡ length static_text + length t + 2
length-message static_text t =
    omega (arith, length-append static_text (t ++ codes "},"), length-append t (codes "},"))

module _ (bulk_size : ℕ) (static_text : Bytes) (sample : ℕ → Sample) where
  append_sample-total :
      (o : Option Bytes) (a : Bytes)
      → FitsText static_text o
      → length a + 1023 < json_len * bulk_size
      → (b : Bytes) × (append_sample bulk_size static_text sample o a ≡ some b)
        × (length b ≤ length a + 1023)
  unfolding append_sample
  append_sample-total none a fits room = (a, refl, omega arith)
  append_sample-total (some t) a fits room =
      let msg : Bytes = static_text ++ (t ++ codes "},") in
      (
        a ++ msg,
        rw (in_buffer_fits json_len msg (omega (arith, length-message static_text t))) (
            in_buffer_fits (json_len * bulk_size) (a ++ msg)
              (omega (arith, length-append a msg, length-message static_text t))),
        omega (arith, length-append a msg, length-message static_text t),
      )

  collect_samples-total :
      (k i : ℕ) (a : Bytes)
      → ((j : ℕ) → FitsMsg static_text sample j)
      → length a + k * 1023 < json_len * bulk_size
      → (r : ℕ × Bytes) × (collect_samples bulk_size static_text sample k i a ≡ some r)
  unfolding collect_samples
  collect_samples-total zero i a fits room = ((i, a), refl)
  collect_samples-total (suc k) i a fits room =
      let (b, appended, grown) = append_sample-total (sample i).json a (fits i) (omega arith) in
      rw (appended, collect_samples)
        (elim (Bool-cases (sample i).slept) [
          | inl slept ↦ rw slept (collect_samples-total k (i + 1) b fits (omega arith))
          | inr woken ↦ rw woken ((i + 1, b), refl)
        ])

-- With a bulk of two samples or more, no buffer of the round overflows as long as each sample's
-- text, with the static text and two bytes more, is shorter than the 1024 bytes of `msg`.
pub gather_bulk-total :
    (bulk_size : ℕ) (static_text : Bytes) (sample : ℕ → Sample) (i : ℕ)
    → 1 < bulk_size
    → ((j : ℕ) → FitsMsg static_text sample j)
    → (r : ℕ × Bytes) × (gather_bulk bulk_size static_text sample i ≡ some r)
unfolding gather_bulk
gather_bulk-total bulk_size static_text sample i large fits =
    let ((j, b), e) =
      collect_samples-total bulk_size static_text sample bulk_size i (codes "[") fits
        (omega arith) in
    (
      (j, set_last b']' b),
      rw (in_buffer_fits (json_len * bulk_size) (codes "[") (omega arith), e) refl,
    )

-- With a bulk of one sample a text that just fits into `msg` overflows the array.
pub gather_bulk_single :
    (static_text t : Bytes) (sample : ℕ → Sample) (i : ℕ)
    → (sample i).json ≡ some t
    → length static_text + length t + 2 ≡ 1023
    → FitsMsg static_text sample i × (gather_bulk 1 static_text sample i ≡ none)
unfolding gather_bulk append_sample
gather_bulk_single static_text t sample i e size = (
  rw e (omega arith),
  rw
      (
        e,
        append_sample,
        in_buffer_fits json_len (static_text ++ (t ++ codes "},"))
            (omega (arith, length-message static_text t)),
        in_buffer_overflow json_len (codes "[" ++ (static_text ++ (t ++ codes "},")))
            (omega (arith, length-message static_text t)),
      )
      refl,
)
