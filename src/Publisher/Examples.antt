-- ===== src/Publisher/Examples.antt =====
-- Tests of the publisher's definitions, and its theorems at concrete inputs.
use phantom_monitoring_clien.Base.{
  ◌+◌, ◌≡◌, refl, List, [], ◌∷◌, ◌++◌, ◌&&◌, Option, some, true, false, not, Bytes, codes, map, All,
  if◌then◌else◌, arith, concat,
}
use phantom_monitoring_clien.Publisher.{
  Curl, Net, check_url, check_message, publish_json, create_new_experiment, prepare_publish,
  perform, cleanup,
}
use phantom_monitoring_clien.Publisher.Receive.{Stream, Realloc, in_place, deliver, deliver_last}
use phantom_monitoring_clien.Publisher.Lines.{
  drop_last, publish_file, publish_lines, opened_file, add_lines, add_line, send_rest,
}
use phantom_monitoring_clien.Publisher.Batches.{tens, send_batches}
use phantom_monitoring_clien.Publisher.Delivery.{
  IsBatched, close_file, batch_request, publish_file-batches, publish_file-reliable,
}
use phantom_monitoring_clien.Publisher.Space.{FitsMessage, publish_file-FitsMessage}
use phantom_monitoring_clien.Publisher.Handles.{
  posted, publish_json_outcome, create_new_experiment_outcome,
}

abbrev answering : Curl
answering = record {
  easy_init = λ k. true;
  perform = λ k. record { completes = true; chunks = codes "ab" ∷ codes "cd" ∷ [] };
}

abbrev offline : Curl
offline = record { easy_init = λ k. true; perform = λ k. record { completes = false; chunks = [] } }

abbrev idle : Net
idle = record { has_headers = false; inits = 0; open_handles = 0; performs = 0; requests = [] }

abbrev two_lines : List Bytes
two_lines = codes "x\n" ∷ codes "y\n" ∷ []

abbrev files : Bytes → Option (List Bytes)
files name = some two_lines

abbrev empty_stream : Stream
empty_stream = record { contents = []; is_dangling = false }

abbrev stays : Bytes → Realloc
stays b = in_place

publish_file_test :
    (publish_file answering files
      (some (codes "u"))
      (some (codes "s"))
      (some (codes "f"))
      idle).1.requests
    ≡ (record { url = codes "u"; body = some (codes "[{s, x},{s, y}]") } ∷ [])
unfolding publish_file publish_lines opened_file add_lines add_line send_rest check_url
    check_message prepare_publish perform cleanup drop_last
publish_file_test = refl

deliver_last_example :
    deliver stays empty_stream (codes "ab" ∷ codes "cd" ∷ [])
    ≡ (true, record { contents = codes "cd"; is_dangling = false })
deliver_last_example = deliver_last stays empty_stream (codes "ab" ∷ codes "cd" ∷ []) (λ b. refl)

publish_file-batches_example :
    let batches = tens (map drop_last two_lines) in
    let sent =
      send_batches offline (codes "u") (codes "s") batches (prepare_publish offline idle).1 in
    (publish_file offline files (some (codes "u")) (some (codes "s")) (some (codes "f")) idle
      ≡ close_file sent)
    × (concat batches ≡ map drop_last two_lines)
    × IsBatched batches
unfolding check_url check_message prepare_publish
publish_file-batches_example =
    publish_file-batches offline files (codes "u") (codes "s") (codes "f") two_lines idle refl refl
      refl refl refl

publish_file-reliable_example :
    let r =
      publish_file answering files (some (codes "u")) (some (codes "s")) (some (codes "f")) idle in
    (r.0 ≡ true)
    × (r.1.requests
        ≡ [] ++ map (batch_request (codes "u") (codes "s")) (tens (map drop_last two_lines)))
    × (r.1.open_handles ≡ 0)
unfolding check_url check_message
publish_file-reliable_example =
    publish_file-reliable answering files (codes "u") (codes "s") (codes "f") two_lines idle refl
      refl refl refl refl (λ k. refl)

publish_file-FitsMessage_example :
    All FitsMessage
      (publish_file answering files
        (some (codes "u"))
        (some (codes "s"))
        (some (codes "f"))
        idle).1.requests
unfolding drop_last
publish_file-FitsMessage_example =
    publish_file-FitsMessage answering files (some (codes "u")) (some (codes "f")) (codes "s")
      two_lines idle refl (omega arith) tt

publish_json_outcome_example :
    let r = publish_json offline (some (codes "u")) (some (codes "m")) idle in
    let sends = check_url (some (codes "u")) && (check_message (some (codes "m")) && true) in
    (r.0 ≡ (sends && false))
    × (r.1.requests ≡ posted sends (some (codes "u")) (some (codes "m")))
    × (r.1.performs ≡ 0 + (if sends then 1 else 0))
    × (r.1.open_handles ≡ 0 + (if sends && true then 1 else 0))
publish_json_outcome_example =
    publish_json_outcome offline (some (codes "u")) (some (codes "m")) idle

create_new_experiment_outcome_example :
    let r =
      create_new_experiment answering stays
        (some (codes "u"))
        (some (codes "m"))
        empty_stream
        idle in
    let sends = check_url (some (codes "u")) && (check_message (some (codes "m")) && true) in
    let received = deliver stays empty_stream (codes "ab" ∷ codes "cd" ∷ []) in
    (r.0 ≡ (sends && (true && received.0)))
    × (r.1.0 ≡ (if sends then received.1 else empty_stream))
    × (r.1.1.requests ≡ posted sends (some (codes "u")) (some (codes "m")))
    × (r.1.1.performs ≡ 0 + (if sends then 1 else 0))
    × (r.1.1.open_handles ≡ 0 + (if sends && not (true && received.0) then 1 else 0))
create_new_experiment_outcome_example =
    create_new_experiment_outcome answering stays (some (codes "u")) (some (codes "m")) empty_stream
      idle
