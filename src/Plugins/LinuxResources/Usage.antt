-- ===== src/Plugins/LinuxResources/Usage.antt =====
-- What the scan of /proc/meminfo computes.
use phantom_monitoring_clien.Base.{
  ℕ, ◌*◌, ◌%◌, ◌^◌, ◌≡◌, refl, List, [], ◌∷◌, some, true, Bytes, codes, if◌then◌else◌, ◌==◌, length,
  drop, All, starts_with, arith, Bool-cases, inl, inr,
}
use phantom_monitoring_clien.Base.Float.{FloatOps}
use phantom_monitoring_clien.Plugins.LinuxResources.{
  usage_scan, swap_usage_rate_read, usage_rate_read, scan_int,
}

module _ (fl : FloatOps) where
  -- The free amount that a line sets is 0, if it sets one.
  abbrev pub Exhausted : Bytes → Bytes → Type 0
  Exhausted free_key line =
      starts_with free_key line ≡ true → scan_int (drop (length free_key) line) 0 ≡ 0

  no_free :
      (free_key line : Bytes)
      → Exhausted free_key line
      → (if starts_with free_key line then scan_int (drop (length free_key) line) 0 else 0) ≡ 0
  no_free free_key line h = elim (Bool-cases (starts_with free_key line)) [
    | inl hit ↦ rw hit (h hit)
    | inr miss ↦ rw miss refl
  ]

  zero_product : (t : ℕ) → (t * 0 % 2 ^ 32 == 0) ≡ true
  zero_product t = ground arith

  usage_scan-Exhausted :
      (total_key free_key : Bytes) (lines : List Bytes) (total : ℕ)
      → All (Exhausted free_key) lines
      → usage_scan fl total_key free_key lines total 0 ≡ fl.literal 0 0
  unfolding usage_scan
  usage_scan-Exhausted total_key free_key [] total h = refl
  usage_scan-Exhausted total_key free_key (line ∷ lines) total (h, hs) =
      rw (no_free free_key line h, zero_product)
        (usage_scan-Exhausted total_key free_key lines _ hs)

  -- Where no line of /proc/meminfo gives a free amount of swap other than 0, the rate read is 0, be
  -- the total what it may: swap in full use is reported as unused.
  pub swap_usage_rate_read-Exhausted :
      (lines : List Bytes)
      → All (Exhausted (codes "SwapFree:")) lines
      → swap_usage_rate_read fl (some lines) ≡ fl.literal 0 0
  unfolding swap_usage_rate_read usage_rate_read
  swap_usage_rate_read-Exhausted lines h = usage_scan-Exhausted _ _ lines 0 h
