-- ===== src/Publisher/Delivery.antt =====
-- `publish_file` as a whole: which requests it makes, and that no line is lost or sent twice.
use phantom_monitoring_clien.Base.{
  ℕ, zero, suc, ◌+◌, ◌≤◌, ◌<◌, ◌≡◌, refl, ap, ◌∙◌, List, [], ◌∷◌, ◌++◌, Option, some, Bool, true,
  false, Bytes, if◌then◌else◌, length, concat, map, arith, length-append, append_assoc, append-nil,
}
use phantom_monitoring_clien.Publisher.{
  Curl, Net, Request, cleanup, check_url, check_message, prepare_publish,
}
use phantom_monitoring_clien.Publisher.Lines.{
  drop_last, send, publish_lines, opened_file, publish_file,
}
use phantom_monitoring_clien.Publisher.Batches.{
  groups_from, tens, batch_text, send_batches, add_lines-groups,
}

-- Every batch has ten lines, but for a last one of one to ten.
abbrev pub IsBatched : {A : Type 0} → List (List A) → Type 0
IsBatched [] = Unit
IsBatched (b ∷ []) = (0 < length b) × (length b ≤ 10)
IsBatched (b ∷ c ∷ bs) = (length b ≡ 10) × IsBatched (c ∷ bs)

concat-groups_from :
    {A : Type 0} (size k : ℕ) (group xs : List A)
    → concat (groups_from size k group xs) ≡ group ++ xs
unfolding groups_from
concat-groups_from size k [] [] = refl
concat-groups_from size k (y ∷ group) [] = refl
concat-groups_from size zero group (x ∷ xs) =
    ap (λ l. (group ++ x ∷ []) ++ l) (concat-groups_from size size [] xs)
    ∙ append_assoc group (x ∷ []) xs
concat-groups_from size (suc k) group (x ∷ xs) =
    concat-groups_from size k (group ++ x ∷ []) xs ∙ append_assoc group (x ∷ []) xs

IsBatched-cons :
    {A : Type 0} (b : List A) (bs : List (List A))
    → length b ≡ 10
    → IsBatched bs
    → IsBatched (b ∷ bs)
IsBatched-cons b [] e h = omega arith
IsBatched-cons b (c ∷ bs) e h = (e, h)

groups_from-IsBatched :
    {A : Type 0} (k : ℕ) (group xs : List A)
    → length group + k ≡ 9
    → IsBatched (groups_from 9 k group xs)
unfolding groups_from
groups_from-IsBatched k [] [] e = tt
groups_from-IsBatched k (y ∷ group) [] e = (omega arith, omega arith)
groups_from-IsBatched zero group (x ∷ xs) e =
    IsBatched-cons _ _ (omega (arith, length-append group (x ∷ [])))
      (groups_from-IsBatched 9 [] xs (omega arith))
groups_from-IsBatched (suc k) group (x ∷ xs) e =
    groups_from-IsBatched k (group ++ x ∷ []) xs (omega (arith, length-append group (x ∷ [])))

-- What is left to do when the batches are sent.
abbrev pub close_file : Bool × Net → Bool × Net
close_file r = (r.0, if r.0 then cleanup r.1 else r.1)

publish_lines-batches :
    (c : Curl) (url static_string : Bytes) (lines : List Bytes) (n : Net)
    → publish_lines c url static_string (some lines) n
      ≡ close_file (send_batches c url static_string (tens (map drop_last lines)) n)
unfolding publish_lines tens
publish_lines-batches c url static_string lines n =
    rw (add_lines-groups c url static_string lines [] 9 n refl) (ground arith)

opened_file-batches :
    (c : Curl) (url static_string : Bytes) (lines : List Bytes) (r : Bool × Net)
    → r.0 ≡ true
    → opened_file c url static_string (some lines) r
      ≡ close_file (send_batches c url static_string (tens (map drop_last lines)) r.1)
unfolding opened_file
opened_file-batches c url static_string lines (true, n) e =
    publish_lines-batches c url static_string lines n
opened_file-batches c url static_string lines (false, n) e = cc

-- The file's lines, each without its last byte, go out in order: ten to a request and the rest in a
-- last one, each request a JSON array of the batch's records, up to the first request that fails.
-- Joined, the batches are the lines. The call succeeds exactly if all requests do, and then closes
-- the handle. This holds where the three texts are set, the handle is opened and the file is read.
pub publish_file-batches :
    (c : Curl) (files : Bytes → Option (List Bytes)) (url static_string filename : Bytes)
    (lines : List Bytes) (n : Net)
    → check_url (some url) ≡ true
    → check_message (some static_string) ≡ true
    → check_message (some filename) ≡ true
    → (prepare_publish c n).0 ≡ true
    → files filename ≡ some lines
    → let batches = tens (map drop_last lines) in
      let sent = send_batches c url static_string batches (prepare_publish c n).1 in
      (publish_file c files (some url) (some static_string) (some filename) n ≡ close_file sent)
      × (concat batches ≡ map drop_last lines)
      × IsBatched batches
unfolding publish_file tens
publish_file-batches c files url static_string filename lines n u s f opened e = (
  rw (u, s, f, e) (opened_file-batches c url static_string lines (prepare_publish c n) opened),
  concat-groups_from 9 9 [] (map drop_last lines),
  groups_from-IsBatched 9 [] (map drop_last lines) refl,
)

prepare_publish-opens :
    (c : Curl) (n : Net) → c.easy_init n.inits ≡ true → (prepare_publish c n).0 ≡ true
unfolding prepare_publish
prepare_publish-opens c n e = ground arith

prepare_publish-net :
    (c : Curl) (n : Net)
    → c.easy_init n.inits ≡ true
    → ((prepare_publish c n).1.requests ≡ n.requests)
      × ((prepare_publish c n).1.open_handles ≡ n.open_handles + 1)
unfolding prepare_publish
prepare_publish-net c n e = ground arith

abbrev pub batch_request : Bytes → Bytes → List Bytes → Request
batch_request url static_string b = record { url = url; body = some (batch_text static_string b) }

module _ (c : Curl) (url static_string : Bytes)
    (reliable : (k : ℕ) → (c.perform k).completes ≡ true) where
  send_batches-reliable :
      (bs : List (List Bytes)) (n : Net)
      → send_batches c url static_string bs n ≡ (
        true,
        record n {
          performs = n.performs + length bs;
          requests = n.requests ++ map (batch_request url static_string) bs;
        },
      )
  unfolding send_batches send
  send_batches-reliable [] n = ground (arith, append-nil n.requests)
  send_batches-reliable (b ∷ bs) n =
      rw (reliable n.performs, send_batches)
        (send_batches-reliable bs (send c url static_string (batch_text static_string b) n).1
          ∙ ground (
            arith,
            append_assoc n.requests (batch_request url static_string b ∷ [])
                (map (batch_request url static_string) bs),
          ))

-- If no request fails, `publish_file` succeeds, has made one request for each batch, in the order
-- of the lines, and leaves as many handles open as it found. This holds where the three texts are
-- set, the handle is opened and the file is read.
pub publish_file-reliable :
    (c : Curl) (files : Bytes → Option (List Bytes)) (url static_string filename : Bytes)
    (lines : List Bytes) (n : Net)
    → check_url (some url) ≡ true
    → check_message (some static_string) ≡ true
    → check_message (some filename) ≡ true
    → c.easy_init n.inits ≡ true
    → files filename ≡ some lines
    → ((k : ℕ) → (c.perform k).completes ≡ true)
    → let r = publish_file c files (some url) (some static_string) (some filename) n in
      (r.0 ≡ true)
      × (r.1.requests
          ≡ n.requests ++ map (batch_request url static_string) (tens (map drop_last lines)))
      × (r.1.open_handles ≡ n.open_handles)
unfolding cleanup
publish_file-reliable c files url static_string filename lines n u s f opens e reliable =
    rw
      (
        (publish_file-batches c files url static_string filename lines n u s f
            (prepare_publish-opens c n opens) e).0,
        send_batches-reliable c url static_string reliable (tens (map drop_last lines))
            (prepare_publish c n).1,
      )
      (
        refl,
        ap (λ l. l ++ map (batch_request url static_string) (tens (map drop_last lines)))
            (prepare_publish-net c n opens).0,
        omega (arith, (prepare_publish-net c n opens).1),
      )
