-- ===== src/Publisher.antt =====
-- src/publisher/src/publisher.c: JSON over HTTP by libcurl. libcurl is a parameter: which
-- curl_easy_init gives a handle, and how each curl_easy_perform ends. A C string that may be NULL
-- is an Option. The write callback is in Publisher/Receive.
pub mod Receive
pub mod Lines
pub mod Handles
pub mod Batches
pub mod Delivery
pub mod Space
mod Examples
use phantom_monitoring_clien.Base.{
  ℕ, ◌+◌, ◌-◌, List, [], ◌∷◌, ◌++◌, Option, none, some, Bool, true, false, not, ◌&&◌, ◌||◌, Bytes,
  codes, if◌then◌else◌, ◌==◌, ltb, length,
}
use Receive.{Stream, Realloc, deliver}

-- How a request ended, and the pieces of the body that came back.
pub record Reply : Type 0 where
  pub completes : Bool
  pub chunks : List Bytes

-- libcurl, by the number of the call.
pub record Curl : Type 0 where
  pub easy_init : ℕ → Bool
  pub perform : ℕ → Reply

-- A request; a query has no body.
pub record Request : Type 0 where
  pub url : Bytes
  pub body : Option Bytes

-- `headers`, the handles that are open, and the requests made so far, oldest first.
pub record Net : Type 0 where
  pub has_headers : Bool
  pub inits : ℕ
  pub open_handles : ℕ
  pub performs : ℕ
  pub requests : List Request

-- `text == NULL || *text == '\0'` fails.
unfoldable pub is_set : Option Bytes → Bool
is_set none = false
is_set (some []) = false
is_set (some (c ∷ s)) = true

unfoldable pub check_url : Option Bytes → Bool
unfolding is_set
check_url url = is_set url

unfoldable pub check_message : Option Bytes → Bool
unfolding is_set
check_message message = is_set message

-- The text behind a pointer that has passed its check.
abbrev pub text : Option Bytes → Bytes
text none = []
text (some s) = s

unfoldable pub init_curl : Net → Net
init_curl n = if n.has_headers then n else record n { has_headers = true }

-- `curl_easy_cleanup`
unfoldable pub cleanup : Net → Net
cleanup n = record n { open_handles = n.open_handles - 1 }

-- What follows a request that only has to complete.
finish : Bool → Net → Bool × Net
finish true n = (true, cleanup n)
finish false n = (false, n)

module _ (c : Curl) where
  -- The handle, or `none` for NULL.
  open_curl : Net → Bool × Net
  open_curl n =
      if c.easy_init n.inits
      then (true, record n { inits = n.inits + 1; open_handles = n.open_handles + 1 })
      else (false, record n { inits = n.inits + 1 })

  unfoldable pub prepare_publish : Net → Bool × Net
  unfolding init_curl open_curl
  prepare_publish n = open_curl (init_curl n)

  unfoldable pub prepare_query : Net → Bool × Net
  unfolding init_curl open_curl
  prepare_query n = open_curl (init_curl n)

  -- `curl_easy_perform`
  unfoldable pub perform : Request → Net → Reply × Net
  perform r n = (
    c.perform n.performs,
    record n { performs = n.performs + 1; requests = n.requests ++ r ∷ [] },
  )

  -- What follows the opening of a handle.
  post : Request → Bool × Net → Bool × Net
  unfolding perform cleanup finish
  post r (false, n) = (false, n)
  post r (true, n) = let (reply, n') = perform r n in finish reply.completes n'

  unfoldable pub publish_json : Option Bytes → Option Bytes → Net → Bool × Net
  unfolding check_url check_message prepare_publish post
  publish_json url message n =
      if not (check_url url) || not (check_message message)
      then (false, n)
      else post (record { url = text url; body = message }) (prepare_publish n)

  module _ (realloc : Bytes → Realloc) where
    -- The body goes to the stream; a callback that takes less than its piece fails the request.
    exchange : Request → Stream → Bool × Net → Bool × (Stream × Net)
    unfolding perform cleanup finish
    exchange r s (false, n) = (false, (s, n))
    exchange r s (true, n) =
        let (reply, n') = perform r n in
        let (taken, s') = deliver realloc s reply.chunks in
        let (done, n'') = finish (reply.completes && taken) n' in (done, (s', n''))

    unfoldable pub create_new_experiment :
        Option Bytes → Option Bytes → Stream → Net → Bool × (Stream × Net)
    unfolding check_url check_message prepare_publish exchange
    create_new_experiment url message s n =
        if not (check_url url) || not (check_message message)
        then (false, (s, n))
        else exchange (record { url = text url; body = message }) s (prepare_publish n)

    -- The response buffer is the caller's, and is never NULL here.
    unfoldable pub query_json : Option Bytes → Stream → Net → Bool × (Stream × Net)
    unfolding check_url prepare_query exchange
    query_json url s n =
        if not (check_url url)
        then (false, (s, n))
        else exchange (record { url = text url; body = none }) s (prepare_query n)
