-- ===== src/Publisher/Batches.antt =====
-- What `publish_file` sends: an independent description by batches of ten, and the space that a
-- batch takes.
use phantom_monitoring_clien.Base.{
  ℕ, zero, suc, ◌+◌, ◌<◌, ◌≡◌, refl, sym, ap, ap₂, ◌∙◌, List, [], ◌∷◌, ◌++◌, Bool, true, false,
  Bytes, codes, length, map, arith, length-append, append_assoc, append-nil,
}
use phantom_monitoring_clien.Publisher.{Curl, Net}
use phantom_monitoring_clien.Publisher.Lines.{
  drop_last, first_record, next_record, going, stopped, send, add_line, send_rest, add_lines,
  after_send,
}

-- The first `k` elements in one group, the rest in groups of `size`; `k` counts down.
unfoldable pub groups_from : {A : Type 0} → ℕ → ℕ → List A → List A → List (List A)
groups_from size k [] [] = []
groups_from size k (y ∷ group) [] = (y ∷ group) ∷ []
groups_from size zero group (x ∷ xs) = (group ++ x ∷ []) ∷ groups_from size size [] xs
groups_from size (suc k) group (x ∷ xs) = groups_from size k (group ++ x ∷ []) xs

-- The lines in groups of ten, the last one with what is left.
unfoldable pub tens : {A : Type 0} → List A → List (List A)
unfolding groups_from
tens = groups_from 9 9 []

abbrev pub later_records : Bytes → List Bytes → Bytes
later_records static_string [] = []
later_records static_string (l ∷ ls) = next_record static_string l ++ later_records static_string ls

abbrev pub open_batch : Bytes → List Bytes → Bytes
open_batch static_string [] = []
open_batch static_string (l ∷ ls) = first_record static_string l ++ later_records static_string ls

-- The JSON array of a batch.
abbrev pub batch_text : Bytes → List Bytes → Bytes
batch_text static_string ls = open_batch static_string ls ++ codes "]"

later_records-append :
    (static_string l : Bytes) (ls : List Bytes)
    → later_records static_string (ls ++ l ∷ [])
      ≡ later_records static_string ls ++ next_record static_string l
later_records-append static_string l [] = append-nil (next_record static_string l)
later_records-append static_string l (m ∷ ls) =
    ap (λ t. next_record static_string m ++ t) (later_records-append static_string l ls)
    ∙ sym (append_assoc (next_record static_string m) (later_records static_string ls) _)

open_batch-append :
    (static_string l m : Bytes) (ls : List Bytes)
    → open_batch static_string (m ∷ (ls ++ l ∷ []))
      ≡ open_batch static_string (m ∷ ls) ++ next_record static_string l
open_batch-append static_string l m ls =
    ap (λ t. first_record static_string m ++ t) (later_records-append static_string l ls)
    ∙ sym (append_assoc (first_record static_string m) (later_records static_string ls) _)

module _ (c : Curl) (url static_string : Bytes) where
  -- The batches in turn, up to the first that fails.
  unfoldable pub send_batches : List (List Bytes) → Net → Bool × Net
  send_batches [] n = (true, n)
  send_batches (b ∷ bs) n =
      let sent = send c url static_string (batch_text static_string b) n in
      elim sent.0 [ true ↦ send_batches bs sent.1 | false ↦ (false, sent.1) ]

  add_line_middle :
      (n : Net) (i : ℕ) (message line : Bytes)
      → 0 < i
      → i < 9
      → add_line c url static_string n i message line
        ≡ going n (i + 1) (message ++ next_record static_string (drop_last line))
  unfolding add_line
  add_line_middle n i message line h k = ground arith

  add_line_first :
      (n : Net) (message line : Bytes)
      → add_line c url static_string n 0 message line
        ≡ going n 1 (first_record static_string (drop_last line))
  unfolding add_line
  add_line_first n message line = refl

  add_line_last :
      (n : Net) (i : ℕ) (message line : Bytes)
      → i ≡ 9
      → add_line c url static_string n i message line
        ≡ after_send c url static_string (
            send c url static_string
              (message ++ (next_record static_string (drop_last line) ++ codes "]"))
              n)
  unfolding add_line
  add_line_last n i message line e = ground arith

  -- After a full batch the loop goes on with the next, or the function returns.
  after_send-batches :
      (r : Bool × Net) (lines : List Bytes) (bs : List (List Bytes))
      → ((m : Net) → add_lines c url static_string m 0 [] lines ≡ send_batches bs m)
      → (elim (after_send c url static_string r) [
        | going n i message ↦ add_lines c url static_string n i message lines
        | stopped n ↦ (false, n)
      ])
        ≡ (elim r.0 [ true ↦ send_batches bs r.1 | false ↦ (false, r.1) ])
  unfolding after_send
  after_send-batches (true, n) lines bs next = next n
  after_send-batches (false, n) lines bs next = refl

  full_batch :
      (p l : Bytes) (ps : List Bytes)
      → open_batch static_string (p ∷ ps) ++ (next_record static_string l ++ codes "]")
        ≡ batch_text static_string (p ∷ (ps ++ l ∷ []))
  full_batch p l ps =
      sym
        (append_assoc (open_batch static_string (p ∷ ps)) (next_record static_string l) (codes "]"))
      ∙ ap (λ t. t ++ codes "]") (sym (open_batch-append static_string l p ps))

  send_rest-batch :
      (p : Bytes) (ps : List Bytes) (n : Net)
      → send_rest c url static_string n (suc (length ps)) (open_batch static_string (p ∷ ps))
        ≡ send_batches ((p ∷ ps) ∷ []) n
  unfolding send_rest send_batches
  send_rest-batch p ps n = ground arith

  pub add_lines-groups :
      (lines pending : List Bytes) (k : ℕ) (n : Net)
      → length pending + k ≡ 9
      → add_lines c url static_string n (length pending) (open_batch static_string pending) lines
        ≡ send_batches (groups_from 9 k pending (map drop_last lines)) n
  unfolding add_lines groups_from send_rest
  add_lines-groups [] [] k n e = unfold send_batches in refl
  add_lines-groups [] (p ∷ ps) k n e = send_rest-batch p ps n
  add_lines-groups (l ∷ ls) [] zero n e = absurd (omega arith)
  add_lines-groups (l ∷ ls) [] (suc k) n e =
      rw (add_line_first n [] l, add_lines)
        (ap (λ m. add_lines c url static_string n 1 m ls) (sym (append-nil _))
          ∙ add_lines-groups ls (drop_last l ∷ []) k n (omega arith))
  add_lines-groups (l ∷ ls) (p ∷ ps) zero n e =
      rw
        (
          add_line_last n (suc (length ps)) (open_batch static_string (p ∷ ps)) l (omega arith),
          add_lines,
        )
        (rw (full_batch p (drop_last l) ps) (
          after_send-batches _ ls _ (λ m. add_lines-groups ls [] 9 m refl)
          ∙ unfold send_batches in refl))
  add_lines-groups (l ∷ ls) (p ∷ ps) (suc k) n e =
      rw
        (
          add_line_middle n (suc (length ps)) (open_batch static_string (p ∷ ps)) l (omega arith)
              (omega arith),
          add_lines,
        )
        (ap₂ (λ i m. add_lines c url static_string n i m ls)
            (omega (arith, length-append ps (drop_last l ∷ [])))
            (sym (open_batch-append static_string (drop_last l) p ps))
          ∙ add_lines-groups ls (p ∷ (ps ++ drop_last l ∷ [])) k n
              (omega (arith, length-append ps (drop_last l ∷ []))))
