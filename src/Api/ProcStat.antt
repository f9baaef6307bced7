-- ===== src/Api/ProcStat.antt =====
-- The line of /proc/[pid]/stat as resources_monitor.c and power_monitor.c read it: the user and the
-- system time of a process are the last two of fifteen conversions,
-- "%d %s %c %d %d %d %d %d %u %lu %lu %lu %lu %lu %lu".
use phantom_monitoring_clien.Base.{
  ℕ, zero, suc, ◌+◌, ◌<◌, ◌≡◌, refl, sym, List, [], ◌∷◌, ◌++◌, Option, none, some, false, Bytes,
  codes, if◌then◌else◌, is_space, skip_space, scan_u64, scan_fields, get_or, length, All, add64,
  arith, u64_mod, add64-eq, ℤ, map, length-append,
}
use phantom_monitoring_clien.Base.Numeral.Decimal.{
  decimal, word, FitsWord, spaced_signed, scan_u64-decimal, scan_fields-signed, first_digit,
}

-- What `%s` leaves of a text that begins with no space.
unfoldable pub skip_word : Bytes → Bytes
skip_word [] = []
skip_word (c ∷ s) = if is_space c then c ∷ s else skip_word s

-- What `%s %c` leaves, or `none` where it does not match.
unfoldable pub skip_char : Bytes → Option Bytes
skip_char [] = none
skip_char (c ∷ s) = some s

unfoldable pub after_state : Bytes → Option Bytes
after_state s = skip_char (skip_space (skip_word (skip_space s)))

-- The numbers behind the state: those of the conversions that succeed.
unfoldable pub stat_fields : Bytes → List ℕ
unfolding after_state
stat_fields line = elim (scan_u64 line) [
  | none ↦ []
  | some (pid, rest) ↦ elim (after_state rest) [ none ↦ [] | some s ↦ scan_fields 12 s ]
]

-- pid_utime + pid_stime; the two locals start as `junk`, and keep it where no line is read.
unfoldable pub pid_time : ℕ × ℕ → List Bytes → ℕ
pid_time junk [] = add64 junk.0 junk.1
pid_time junk (line ∷ lines) =
    let fields = stat_fields line in add64 (get_or fields 10 junk.0) (get_or fields 11 junk.1)

-- A program's name in the line, and what the kernel puts around it.
abbrev pub stat_text : ℕ → Bytes → ℕ → List ℤ → Bytes → Bytes
stat_text pid name state fields rest =
    decimal pid
    ++ (codes " (" ++ (name ++ (codes ") " ++ (state ∷ (spaced_signed fields ++ rest)))))

abbrev pub HasNoSpace : Bytes → Type 0
HasNoSpace s = All (λ c. is_space c ≡ false) s

skip_word-append :
    (name rest : Bytes) → HasNoSpace name → skip_word (name ++ b')' ∷ (b' ' ∷ rest)) ≡ b' ' ∷ rest
unfolding skip_word
skip_word-append [] rest all = refl
skip_word-append (c ∷ name) rest (word, all) = rw word (skip_word-append name rest all)

after_state-text :
    (name : Bytes) (state : ℕ) (rest : Bytes)
    → HasNoSpace name
    → is_space state ≡ false
    → after_state (codes " (" ++ (name ++ (codes ") " ++ (state ∷ rest)))) ≡ some rest
unfolding after_state skip_space skip_char skip_word
after_state-text name state rest all word =
    rw (after_state, skip_word, skip_word-append name (state ∷ rest) all, word) refl

pub get_or_inside : (xs : List ℕ) (i a b : ℕ) → i < length xs → get_or xs i a ≡ get_or xs i b
get_or_inside [] i a b lt = absurd (omega arith)
get_or_inside (x ∷ xs) zero a b lt = refl
get_or_inside (x ∷ xs) (suc i) a b lt = get_or_inside xs i a b (omega arith)

-- The numbers behind the state: ten, of which some can be negative, and the two times.
abbrev pub stat_numbers : List ℤ → ℕ × ℕ → List ℤ
stat_numbers front times = front ++ ℤ.pos times.0 ∷ ℤ.pos times.1 ∷ []

get_or-front :
    (front : List ℤ) (n : ℕ) (times : ℕ × ℕ) (a : ℕ)
    → length front ≡ n
    → (get_or (map word (stat_numbers front times)) n a ≡ times.0)
      × (get_or (map word (stat_numbers front times)) (suc n) a ≡ times.1)
get_or-front [] zero times a e = (refl, refl)
get_or-front [] (suc n) times a e = absurd (omega arith)
get_or-front (z ∷ front) zero times a e = absurd (omega arith)
get_or-front (z ∷ front) (suc n) times a e = get_or-front front n times a (omega arith)

stat_fields-text :
    (pid : ℕ) (name : Bytes) (state : ℕ) (fields : List ℤ) (rest : Bytes)
    → pid < u64_mod
    → HasNoSpace name
    → is_space state ≡ false
    → length fields ≡ 12
    → All FitsWord fields
    → first_digit rest ≡ false
    → stat_fields (stat_text pid name state fields rest) ≡ map word fields
unfolding stat_fields
stat_fields-text pid name state fields rest fits no_space visible twelve small stop =
    rw
      (
        stat_fields,
        scan_u64-decimal pid
            (codes " (" ++ (name ++ (codes ") " ++ (state ∷ (spaced_signed fields ++ rest))))) fits
            refl,
        after_state-text name state (spaced_signed fields ++ rest) no_space visible,
        sym twelve,
      )
      (scan_fields-signed fields rest small stop)

-- A program whose name has no space: from a line of /proc/[pid]/stat as the kernel prints it, with any
-- numbers behind the two times, the process's time is the sum of the two, if that is below 2^64,
-- whatever the two locals held.
pub pid_time-stat_text :
    (junk : ℕ × ℕ) (pid : ℕ) (name : Bytes) (state : ℕ) (front : List ℤ) (times : ℕ × ℕ)
    (rest : Bytes) (lines : List Bytes)
    → pid < u64_mod
    → HasNoSpace name
    → is_space state ≡ false
    → length front ≡ 10
    → All FitsWord (stat_numbers front times)
    → first_digit rest ≡ false
    → times.0 + times.1 < u64_mod
    → pid_time junk (stat_text pid name state (stat_numbers front times) rest ∷ lines)
      ≡ times.0 + times.1
unfolding pid_time
pid_time-stat_text junk pid name state front times rest lines fits no_space visible ten small stop
      no_wrap =
    let twelve : length (stat_numbers front times) ≡ 12 =
      omega (arith, length-append front (ℤ.pos times.0 ∷ ℤ.pos times.1 ∷ [])) in
    rw
      (
        pid_time,
        stat_fields-text pid name state (stat_numbers front times) rest fits no_space visible twelve
            small stop,
        (get_or-front front 10 times junk.0 ten).0,
        (get_or-front front 10 times junk.1 ten).1,
      )
      (add64-eq _ _ no_wrap)
