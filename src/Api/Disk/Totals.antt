-- ===== src/Api/Disk/Totals.antt =====
-- What the lines of disk_monitor add up to, when the kernel prints the counters of the process.
use phantom_monitoring_clien.Base.{
  ℕ, suc, ◌+◌, ◌%◌, ◌<◌, ◌≡◌, refl, ap, ◌∙◌, List, [], ◌∷◌, ◌++◌, Option, none, some, true, false,
  Bytes, codes, map, length, All, starts_with, u64_mod, sub64, arith, length-map,
}
use phantom_monitoring_clien.Base.Numeral.Decimal.{decimal, scan_fields-decimal}
use phantom_monitoring_clien.Plugins.ProcFs.{File}
use phantom_monitoring_clien.Api.{Clock}
use phantom_monitoring_clien.Api.Disk.{
  DiskStats, disk_line, disk_lines, update_before, disk_stats_read, Round, Sample, disk_round,
  disk_rounds,
}

-- A line that is about neither of the two counters.
abbrev pub IsOther : Bytes → Type 0
IsOther line =
    (starts_with (codes "read_bytes:") line ≡ false)
    × (starts_with (codes "write_bytes:") line ≡ false)

-- The text of /proc/[pid]/io.
abbrev pub io_text : List Bytes → List Bytes → ℕ → ℕ → List Bytes
io_text front back r w =
    front
    ++ (codes "read_bytes: " ++ decimal r ++ codes "\n")
      ∷ (codes "write_bytes: " ++ decimal w ++ codes "\n")
      ∷ back

disk_lines-append :
    (xs ys : List Bytes) (s : DiskStats) → disk_lines (xs ++ ys) s ≡ disk_lines ys (disk_lines xs s)
unfolding disk_lines
disk_lines-append [] ys s = refl
disk_lines-append (x ∷ xs) ys s = disk_lines-append xs ys (disk_line x s)

disk_lines-IsOther : (xs : List Bytes) (s : DiskStats) → All IsOther xs → disk_lines xs s ≡ s
unfolding disk_lines disk_line
disk_lines-IsOther [] s all = refl
disk_lines-IsOther (x ∷ xs) s ((no_read, no_write), all) =
    rw (no_read, no_write) (disk_lines-IsOther xs s all)

disk_line-read :
    (r : ℕ) (s : DiskStats)
    → r < u64_mod
    → disk_line (codes "read_bytes: " ++ decimal r ++ codes "\n") s
      ≡ record s { read_bytes_after = r }
unfolding disk_line starts_with
disk_line-read r s fits = rw (disk_line, scan_fields-decimal r (codes "\n") fits refl) refl

disk_line-write :
    (w : ℕ) (s : DiskStats)
    → w < u64_mod
    → disk_line (codes "write_bytes: " ++ decimal w ++ codes "\n") s
      ≡ record s { write_bytes_after = w }
unfolding disk_line starts_with
disk_line-write w s fits = rw (disk_line, scan_fields-decimal w (codes "\n") fits refl) refl

disk_stats_read-io_text :
    (front back : List Bytes) (r w : ℕ) (s : DiskStats)
    → All IsOther front
    → All IsOther back
    → r < u64_mod
    → w < u64_mod
    → disk_stats_read (some (io_text front back r w)) s ≡ (
      true,
      record {
        read_bytes_before = s.read_bytes_after;
        read_bytes_after = r;
        write_bytes_before = s.write_bytes_after;
        write_bytes_after = w;
      },
    )
unfolding disk_stats_read disk_lines update_before
disk_stats_read-io_text front back r w s f b fits_r fits_w =
    rw
      (
        disk_lines-append front
            ((codes "read_bytes: " ++ decimal r ++ codes "\n")
              ∷ (codes "write_bytes: " ++ decimal w ++ codes "\n")
              ∷ back)
            (update_before s),
        disk_lines-IsOther front (update_before s) f,
        disk_line-read r (update_before s) fits_r,
        disk_line-write w (record (update_before s) { read_bytes_after = r }) fits_w,
      )
      (ap (λ t. (true, t)) (disk_lines-IsOther back _ b))

disk_stats_read-none : (s : DiskStats) → disk_stats_read none s ≡ (false, update_before s)
unfolding disk_stats_read
disk_stats_read-none s = refl

-- What the kernel shows in a round: the two counters, or no file.
abbrev pub Counters : Type 0
Counters = Option (ℕ × ℕ)

abbrev pub InRange : Counters → Type 0
InRange none = Unit
InRange (some (r, w)) = (r < u64_mod) × (w < u64_mod)

-- The lines before and behind those of the two counters.
abbrev pub Frame : Type 0
Frame = List Bytes × List Bytes

abbrev pub IsFrame : Frame → Type 0
IsFrame (front, back) = All IsOther front × All IsOther back

-- What a round is shown: the other lines, the counters, and the clock.
abbrev pub Shown : Type 0
Shown = Frame × Counters × Clock

abbrev pub IsShown : Shown → Type 0
IsShown (frame, c, clock) = IsFrame frame × InRange c

-- The counters that were shown last.
abbrev pub latest : List Shown → ℕ × ℕ → ℕ × ℕ
latest [] seen = seen
latest ((frame, none, clock) ∷ rs) seen = latest rs seen
latest ((frame, some c, clock) ∷ rs) seen = latest rs c

abbrev shown_or : Counters → ℕ × ℕ → ℕ × ℕ
shown_or none seen = seen
shown_or (some c) seen = c

InRange-shown :
    (c : Counters) (seen : ℕ × ℕ)
    → InRange c
    → InRange (some seen)
    → InRange (some (shown_or c seen))
InRange-shown none seen fit now = now
InRange-shown (some c) seen fit now = fit

abbrev pub total_of : (Sample → ℕ) → List Sample → ℕ
total_of part [] = 0
total_of part (x ∷ xs) = part x + total_of part xs

abbrev pub io_file : Frame → Counters → File
io_file frame none = none
io_file (front, back) (some (r, w)) = some (io_text front back r w)

abbrev pub round_of : Shown → Round
round_of (frame, c, clock) = record { io = io_file frame c; clock = clock }

-- What increments add up to, on top of the counters at the start.
abbrev Sums : List Sample × DiskStats → ℕ × ℕ → Type 0
Sums (samples, last) start =
    ((total_of (λ x. x.read) samples + start.0) % u64_mod ≡ last.read_bytes_after % u64_mod)
    × ((total_of (λ x. x.write) samples + start.1) % u64_mod ≡ last.write_bytes_after % u64_mod)

disk_lines-before :
    (lines : List Bytes) (s : DiskStats)
    → ((disk_lines lines s).read_bytes_before ≡ s.read_bytes_before)
      × ((disk_lines lines s).write_bytes_before ≡ s.write_bytes_before)
unfolding disk_lines disk_line
disk_lines-before [] s = (refl, refl)
disk_lines-before (x ∷ xs) s = disk_lines-before xs (disk_line x s)

disk_stats_read-before :
    (file : File) (s : DiskStats)
    → let s' = (disk_stats_read file s).1 in
      (s'.read_bytes_before ≡ s.read_bytes_after) × (s'.write_bytes_before ≡ s.write_bytes_after)
unfolding disk_stats_read update_before
disk_stats_read-before none s = (refl, refl)
disk_stats_read-before (some lines) s = disk_lines-before lines (update_before s)

disk_rounds-nil :
    (s : DiskStats) → Sums (disk_rounds [] s) (s.read_bytes_after, s.write_bytes_after)
unfolding disk_rounds
disk_rounds-nil s = (omega arith, omega arith)

sum_step :
    (before after total last : ℕ)
    → before < u64_mod
    → (total + after) % u64_mod ≡ last % u64_mod
    → (sub64 after before + total + before) % u64_mod ≡ last % u64_mod
unfolding sub64
sum_step before after total last fits e = omega arith

Sums-cons :
    (r : Round) (rs : List Round) (s : DiskStats)
    → InRange (some (s.read_bytes_after, s.write_bytes_after))
    → let s' = (disk_stats_read r.io s).1 in
      Sums (disk_rounds rs s') (s'.read_bytes_after, s'.write_bytes_after)
      → Sums (disk_rounds (r ∷ rs) s) (s.read_bytes_after, s.write_bytes_after)
unfolding disk_rounds disk_round
Sums-cons r rs s (fits_r, fits_w) (read, write) =
    let s' = (disk_stats_read r.io s).1 in
    let (same_read, same_write) = disk_stats_read-before r.io s in
    rw (same_read, same_write)
      (
        sum_step s.read_bytes_after s'.read_bytes_after _ _ fits_r read,
        sum_step s.write_bytes_after s'.write_bytes_after _ _ fits_w write,
      )

length-disk_rounds :
    (rounds : List Round) (s : DiskStats) → length (disk_rounds rounds s).0 ≡ length rounds
unfolding disk_rounds
length-disk_rounds [] s = refl
length-disk_rounds (r ∷ rs) s = ap suc (length-disk_rounds rs (disk_stats_read r.io s).1)

abbrev seen : DiskStats → ℕ × ℕ
seen s = (s.read_bytes_after, s.write_bytes_after)

disk_stats_read-seen :
    (frame : Frame) (c : Counters) (s : DiskStats)
    → IsFrame frame
    → InRange c
    → seen (disk_stats_read (io_file frame c) s).1 ≡ shown_or c (seen s)
unfolding update_before
disk_stats_read-seen frame none s other fits = ap (λ t. seen t.1) (disk_stats_read-none s)
disk_stats_read-seen (front, back) (some (r, w)) s (f, b) fits =
    ap (λ t. seen t.1) (disk_stats_read-io_text front back r w s f b fits.0 fits.1)

disk_rounds-Sums :
    (shown : List Shown) (s : DiskStats)
    → All IsShown shown
    → InRange (some (seen s))
    → Sums (disk_rounds (map round_of shown) s) (seen s)
disk_rounds-Sums [] s fits now = disk_rounds-nil s
disk_rounds-Sums ((frame, c, clock) ∷ rs) s ((other, fit), fits) now =
    let r = round_of (frame, c, clock) in
    let s' = (disk_stats_read r.io s).1 in
    let e = disk_stats_read-seen frame c s other fit in
    Sums-cons r (map round_of rs) s now
      (disk_rounds-Sums rs s' fits (rw e (InRange-shown c (seen s) fit now)))

disk_rounds-latest :
    (shown : List Shown) (s : DiskStats)
    → All IsShown shown
    → seen (disk_rounds (map round_of shown) s).1 ≡ latest shown (seen s)
unfolding disk_rounds disk_round
disk_rounds-latest [] s fits = refl
disk_rounds-latest ((frame, none, clock) ∷ rs) s ((other, fit), fits) =
    disk_rounds-latest rs (disk_stats_read none s).1 fits
    ∙ ap (latest rs) (disk_stats_read-seen frame none s other fit)
disk_rounds-latest ((frame, some c, clock) ∷ rs) s ((other, fit), fits) =
    disk_rounds-latest rs (disk_stats_read (io_file frame (some c)) s).1 fits
    ∙ ap (latest rs) (disk_stats_read-seen frame (some c) s other fit)

-- In each round the kernel shows the process's two counters in /proc/[pid]/io, as numbers of 64 bits in
-- lines of their own among other lines, which may differ from round to round, or there is no file. Then
-- disk_monitor writes one line for each round, and the increments that it writes, added to the counters
-- that it had at the start, give modulo 2^64 the counters that were shown last: a round without the
-- file loses nothing.
pub disk_rounds-totals :
    (shown : List Shown) (s : DiskStats)
    → All IsShown shown
    → InRange (some (s.read_bytes_after, s.write_bytes_after))
    → let samples = (disk_rounds (map round_of shown) s).0 in
      let last = latest shown (s.read_bytes_after, s.write_bytes_after) in
      (length samples ≡ length shown)
      × ((total_of (λ x. x.read) samples + s.read_bytes_after) % u64_mod ≡ last.0 % u64_mod)
      × ((total_of (λ x. x.write) samples + s.write_bytes_after) % u64_mod ≡ last.1 % u64_mod)
disk_rounds-totals shown s fits now =
    let (read, write) = disk_rounds-Sums shown s fits now in
    let l = disk_rounds-latest shown s fits in
    (
      length-disk_rounds (map round_of shown) s ∙ length-map round_of shown,
      read ∙ ap (λ c. c.0 % u64_mod) l,
      write ∙ ap (λ c. c.1 % u64_mod) l,
    )
