-- ===== src/Publisher/Space.antt =====
-- The 3200 bytes of `message` in `publish_file` of src/publisher/src/publisher.c.
use phantom_monitoring_clien.Base.{
  ℕ, ◌+◌, ◌*◌, ◌≤◌, ◌<◌, ◌≡◌, refl, List, [], ◌∷◌, ◌++◌, Bytes, codes, length, All, All-append,
  arith, length-append, ◌==◌, Bool, true, false, ltb, not, ◌||◌, Bool-cases, inl, inr, Option, some,
  none,
}
use phantom_monitoring_clien.Publisher.{
  Curl, Net, Request, check_url, check_message, text, prepare_publish, cleanup,
}
use phantom_monitoring_clien.Publisher.Lines.{
  drop_last, record_text, next_record, Progress, going, stopped, send, after_send, add_line,
  send_rest, add_lines, finish_file, publish_lines, opened_file, publish_file,
}

-- The bytes of `message`, and those that one record may take.
abbrev pub message_size : ℕ
message_size = 3200

abbrev pub record_size : ℕ
record_size = 319

-- A line, with the text that goes with it, leaves room for the punctuation.
abbrev pub IsShort : Bytes → Bytes → Type 0
IsShort static_string line = length static_string + length (drop_last line) + 5 ≤ record_size

-- The body of a request, with its NUL, fits into `message`.
abbrev pub FitsMessage : Request → Type 0
FitsMessage r = elim r.body [ none ↦ Unit {0} | some m ↦ length m < message_size ]

module _ (c : Curl) (url static_string : Bytes) where
  length-record :
      (line : Bytes)
      → length (record_text static_string line) ≡ length static_string + length line + 3
  length-record line = omega (
    arith,
    length-append static_string (codes ", " ++ (line ++ codes "}")),
    length-append line (codes "}"),
  )

  -- The message of `i` records, and the requests made, fit.
  abbrev FitsProgress : Progress → Type 0
  FitsProgress (going n i message) =
      (i ≤ 9) × (length message ≤ i * record_size) × All FitsMessage n.requests
  FitsProgress (stopped n) = All FitsMessage n.requests

  send-Fits :
      (message : Bytes) (n : Net)
      → length message < message_size
      → All FitsMessage n.requests
      → All FitsMessage (send c url static_string message n).1.requests
  unfolding send
  send-Fits message n h a = All-append FitsMessage n.requests _ a (h, tt)

  after_send-Fits :
      (r : Bool × Net)
      → All FitsMessage r.1.requests
      → FitsProgress (after_send c url static_string r)
  unfolding after_send
  after_send-Fits (true, n) a = (omega arith, omega arith, a)
  after_send-Fits (false, n) a = a

  full_fits :
      (n : Net) (i : ℕ) (message line : Bytes)
      → IsShort static_string line
      → length message ≤ i * record_size
      → i ≤ 9
      → length (message ++ (next_record static_string (drop_last line) ++ codes "]")) < message_size
  full_fits n i message line short fits small = omega (
    arith,
    length-append message (next_record static_string (drop_last line) ++ codes "]"),
    length-append (next_record static_string (drop_last line)) (codes "]"),
    length-record (drop_last line),
  )

  send_rest-Fits :
      (n : Net) (i : ℕ) (message : Bytes)
      → FitsProgress (going n i message)
      → All FitsMessage (send_rest c url static_string n i message).1.requests
  unfolding send_rest
  send_rest-Fits n i message (small, fits, sent) = elim (Bool-cases (ltb 0 i)) [
    | inl some_left ↦
        rw some_left (send-Fits _ n (omega (arith, length-append message (codes "]"))) sent)
    | inr none_left ↦ rw none_left sent
  ]

  add_line-Fits :
      (n : Net) (i : ℕ) (message line : Bytes)
      → IsShort static_string line
      → FitsProgress (going n i message)
      → FitsProgress (add_line c url static_string n i message line)
  unfolding add_line
  add_line-Fits n i message line short (small, fits, sent) = elim (Bool-cases (i == 0)) [
    | inl start ↦ rw start (omega arith, omega (arith, length-record (drop_last line)), sent)
    | inr later ↦ elim (Bool-cases (i == 9)) [
      | inl full ↦
          rw (later, full)
            (after_send-Fits _ (send-Fits _ n (full_fits n i message line short fits small) sent))
      | inr room ↦
          rw (later, room)
            (
              ground arith,
              omega (
                arith,
                length-append message (next_record static_string (drop_last line)),
                length-record (drop_last line),
              ),
              sent,
            )
    ]
  ]

  add_lines_after-Fits :
      (lines : List Bytes) (n : Net) (i : ℕ) (message line : Bytes) (p : Progress)
      → ((n' : Net) (i' : ℕ) (m : Bytes)
          → FitsProgress (going n' i' m)
          → All FitsMessage (add_lines c url static_string n' i' m lines).1.requests)
      → add_line c url static_string n i message line ≡ p
      → FitsProgress p
      → All FitsMessage (add_lines c url static_string n i message (line ∷ lines)).1.requests
  unfolding add_lines
  add_lines_after-Fits lines n i message line (going n' i' m) later e f =
      rw (e, add_lines) (later n' i' m f)
  add_lines_after-Fits lines n i message line (stopped n') later e f = rw (e, add_lines) f

  add_lines-Fits :
      (lines : List Bytes) (n : Net) (i : ℕ) (message : Bytes)
      → All (IsShort static_string) lines
      → FitsProgress (going n i message)
      → All FitsMessage (add_lines c url static_string n i message lines).1.requests
  unfolding add_lines
  add_lines-Fits [] n i message short fits = send_rest-Fits n i message fits
  add_lines-Fits (line ∷ lines) n i message short fits =
      add_lines_after-Fits lines n i message line _
        (λ n' i' m. add_lines-Fits lines n' i' m short.1) refl
        (add_line-Fits n i message line short.0 fits)

publish_lines-Fits :
    (c : Curl) (url static_string : Bytes) (lines : List Bytes) (n : Net)
    → All (IsShort static_string) lines
    → All FitsMessage n.requests
    → All FitsMessage (publish_lines c url static_string (some lines) n).1.requests
unfolding publish_lines cleanup
publish_lines-Fits c url static_string lines n short sent =
    finished (add_lines c url static_string n 0 [] lines)
      (add_lines-Fits c url static_string lines n 0 [] short (omega arith, omega arith, sent))
  where
    finished :
        (r : Bool × Net) → All FitsMessage r.1.requests → All FitsMessage (finish_file r).1.requests
    finished (true, n') a = a
    finished (false, n') a = a

opened_file-Fits :
    (c : Curl) (url static_string : Bytes) (lines : List Bytes) (r : Bool × Net)
    → All (IsShort static_string) lines
    → All FitsMessage r.1.requests
    → All FitsMessage (opened_file c url static_string (some lines) r).1.requests
unfolding opened_file
opened_file-Fits c url static_string lines (true, n) short sent =
    publish_lines-Fits c url static_string lines n short sent
opened_file-Fits c url static_string lines (false, n) short sent = sent

prepare_publish-requests : (c : Curl) (n : Net) → (prepare_publish c n).1.requests ≡ n.requests
unfolding prepare_publish
prepare_publish-requests c n = ground arith

-- Where each line and the static string together leave room for five bytes of punctuation in a
-- tenth of the buffer, every body that `publish_file` posts for a file that is read fits into the 3200
-- bytes of `message`, whatever the requests answer, if the bodies posted before did.
pub publish_file-FitsMessage :
    (c : Curl) (files : Bytes → Option (List Bytes)) (url filename : Option Bytes)
    (static_string : Bytes) (lines : List Bytes) (n : Net)
    → files (text filename) ≡ some lines
    → All (IsShort static_string) lines
    → All FitsMessage n.requests
    → All FitsMessage (publish_file c files url (some static_string) filename n).1.requests
unfolding publish_file
publish_file-FitsMessage c files url filename static_string lines n e short sent =
    elim (Bool-cases (
      not (check_url url)
      || (not (check_message (some static_string)) || not (check_message filename)))) [
        | inl refused ↦ rw refused sent
        | inr valid ↦
            rw (valid, e)
              (opened_file-Fits c (text url) static_string lines (prepare_publish c n) short
                (rw (prepare_publish-requests c n) sent))
      ]
