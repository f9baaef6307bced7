-- ===== src/Publisher/Handles.antt =====
-- The curl handles that the calls of src/publisher/src/publisher.c open and close.
use phantom_monitoring_clien.Base.{
  ◌+◌, ◌≡◌, Option, none, some, Bool, true, List, append-nil, [], ◌∷◌, ◌++◌, not, ◌&&◌, Bytes,
  if◌then◌else◌, arith,
}
use phantom_monitoring_clien.Publisher.{
  Curl, Net, Request, check_url, check_message, publish_json, create_new_experiment,
}
use phantom_monitoring_clien.Publisher.Receive.{Stream, Realloc, deliver}

-- The request that posts a message to a URL, where the call sends.
abbrev pub posted : Bool → Option Bytes → Option Bytes → List Request
posted true (some url) (some message) = record { url = url; body = some message } ∷ []
posted sends url message = []

-- `publish_json`: a call on texts that are set, for which curl gives a handle, makes one request,
-- which posts the message to the URL. It
-- succeeds exactly if the request completes, and then every handle that it opened is closed; a
-- request that fails leaves its handle open. Any other call makes no request, fails and leaves no
-- handle.
pub publish_json_outcome :
    (c : Curl) (url message : Option Bytes) (n : Net)
    → let r = publish_json c url message n in
      let sends = check_url url && (check_message message && c.easy_init n.inits) in
      (r.0 ≡ (sends && (c.perform n.performs).completes))
      × (r.1.requests ≡ n.requests ++ posted sends url message)
      × (r.1.performs ≡ n.performs + (if sends then 1 else 0))
      × (r.1.open_handles
          ≡ n.open_handles + (if sends && not (c.perform n.performs).completes then 1 else 0))
unfolding publish_json
publish_json_outcome c (some (u ∷ us)) (some (m ∷ ms)) n = ground (arith, append-nil n.requests)
publish_json_outcome c (some (u ∷ us)) (some []) n = ground (arith, append-nil n.requests)
publish_json_outcome c (some (u ∷ us)) none n = ground (arith, append-nil n.requests)
publish_json_outcome c (some []) message n = ground (arith, append-nil n.requests)
publish_json_outcome c none message n = ground (arith, append-nil n.requests)

-- `create_new_experiment`: a call on texts that are set, for which curl gives a handle, makes one
-- request, which posts the message to the URL, and the buffer is as the delivery of the answer leaves it. The call succeeds exactly if the
-- request completes and each piece of the answer is taken, and then every handle that it opened is
-- closed; otherwise its handle stays open. Any other call makes no request, fails, leaves no handle
-- and does not touch the buffer.
pub create_new_experiment_outcome :
    (c : Curl) (realloc : Bytes → Realloc) (url message : Option Bytes) (s : Stream) (n : Net)
    → let r = create_new_experiment c realloc url message s n in
      let sends = check_url url && (check_message message && c.easy_init n.inits) in
      let reply = c.perform n.performs in
      let received = deliver realloc s reply.chunks in
      (r.0 ≡ (sends && (reply.completes && received.0)))
      × (r.1.0 ≡ (if sends then received.1 else s))
      × (r.1.1.requests ≡ n.requests ++ posted sends url message)
      × (r.1.1.performs ≡ n.performs + (if sends then 1 else 0))
      × (r.1.1.open_handles
          ≡ n.open_handles + (if sends && not (reply.completes && received.0) then 1 else 0))
unfolding create_new_experiment
create_new_experiment_outcome c realloc (some (u ∷ us)) (some (m ∷ ms)) s n =
    ground (arith, append-nil n.requests)
create_new_experiment_outcome c realloc (some (u ∷ us)) (some []) s n =
    ground (arith, append-nil n.requests)
create_new_experiment_outcome c realloc (some (u ∷ us)) none s n =
    ground (arith, append-nil n.requests)
create_new_experiment_outcome c realloc (some []) message s n =
    ground (arith, append-nil n.requests)
create_new_experiment_outcome c realloc none message s n = ground (arith, append-nil n.requests)

-- What a request for an experiment leaves, when it completes and its answer is taken.
pub create_new_experiment_answered :
    (c : Curl) (realloc : Bytes → Realloc) (url message : Bytes) (s s' : Stream) (n : Net)
    → check_url (some url) ≡ true
    → check_message (some message) ≡ true
    → c.easy_init n.inits ≡ true
    → (c.perform n.performs).completes ≡ true
    → deliver realloc s (c.perform n.performs).chunks ≡ (true, s')
    → let r = create_new_experiment c realloc (some url) (some message) s n in
      (r.1.0 ≡ s')
      × (r.1.1.requests ≡ n.requests ++ record { url = url; body = some message } ∷ [])
      × (r.1.1.open_handles ≡ n.open_handles)
unfolding create_new_experiment
create_new_experiment_answered c realloc url message s s' n u m opens completes answer =
    ground (arith, u, m, opens, completes, answer)
