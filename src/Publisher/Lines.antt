-- ===== src/Publisher/Lines.antt =====
-- `publish_file` of src/publisher/src/publisher.c: the lines of a file, ten to a request. A file is
-- the strings that fgets returns; `message` is a text of any length (see Publisher/Space for
-- what its 3200 bytes hold).
use phantom_monitoring_clien.Base.{
  ℕ, ◌+◌, List, [], ◌∷◌, ◌++◌, Option, none, some, Bool, true, false, not, ◌||◌, Bytes, codes,
  if◌then◌else◌, ◌==◌, ltb,
}
use phantom_monitoring_clien.Publisher.{
  Curl, Net, check_url, check_message, text, prepare_publish, perform, cleanup,
}

-- `line[strlen(line) - 1] = '\0'`
unfoldable pub drop_last : Bytes → Bytes
drop_last [] = []
drop_last (c ∷ []) = []
drop_last (c ∷ d ∷ s) = c ∷ drop_last (d ∷ s)

-- The three formats of the switch.
abbrev pub record_text : Bytes → Bytes → Bytes
record_text static_string line = static_string ++ (codes ", " ++ (line ++ codes "}"))

abbrev pub first_record : Bytes → Bytes → Bytes
first_record static_string line = codes "[{" ++ record_text static_string line

abbrev pub next_record : Bytes → Bytes → Bytes
next_record static_string line = codes ",{" ++ record_text static_string line

-- The local variables of the loop, or the return on a failed request.
pub data Progress : Type 0 where
  going : Net → ℕ → Bytes → Progress
  stopped : Net → Progress

unfoldable pub finish_file : Bool × Net → Bool × Net
finish_file (true, n) = (true, cleanup n)
finish_file (false, n) = (false, n)

module _ (c : Curl) (url static_string : Bytes) where
  -- `curl_easy_setopt` of the body, and `curl_easy_perform`.
  unfoldable pub send : Bytes → Net → Bool × Net
  unfolding perform
  send message n =
      let (reply, n') = perform c (record { url = url; body = some message }) n in
      (reply.completes, n')

  unfoldable pub after_send : Bool × Net → Progress
  after_send (true, n) = going n 0 []
  after_send (false, n) = stopped n

  -- One round of the loop.
  unfoldable pub add_line : Net → ℕ → Bytes → Bytes → Progress
  unfolding send after_send
  add_line n i message line =
      if i == 0
      then going n 1 (first_record static_string (drop_last line))
      else if i == 9
      then after_send
          (send (message ++ (next_record static_string (drop_last line) ++ codes "]")) n)
      else going n (i + 1) (message ++ next_record static_string (drop_last line))

  -- The lines that are left over.
  unfoldable pub send_rest : Net → ℕ → Bytes → Bool × Net
  unfolding send
  send_rest n i message = if ltb 0 i then send (message ++ codes "]") n else (true, n)

  unfoldable pub add_lines : Net → ℕ → Bytes → List Bytes → Bool × Net
  add_lines n i message [] = send_rest n i message
  add_lines n i message (line ∷ lines) = elim (add_line n i message line) [
    | going n' i' message' ↦ add_lines n' i' message' lines
    | stopped n' ↦ (false, n')
  ]

  -- `none` is a file that cannot be opened.
  unfoldable pub publish_lines : Option (List Bytes) → Net → Bool × Net
  unfolding add_lines finish_file
  publish_lines none n = (false, n)
  publish_lines (some lines) n = finish_file (add_lines n 0 [] lines)

unfoldable pub opened_file : Curl → Bytes → Bytes → Option (List Bytes) → Bool × Net → Bool × Net
opened_file c url static_string file (false, n) = (false, n)
opened_file c url static_string file (true, n) = publish_lines c url static_string file n

unfoldable pub publish_file :
    Curl
    → (Bytes → Option (List Bytes))
    → Option Bytes
    → Option Bytes
    → Option Bytes
    → Net
    → Bool × Net
publish_file c files url static_string filename n =
    if not (check_url url) || (not (check_message static_string) || not (check_message filename))
    then (false, n)
    else opened_file c (text url) (text static_string) (files (text filename)) (prepare_publish c n)
