-- ===== src/Api/Send/Requests.antt =====
-- Which requests mf_send makes, and which files it leaves.
use phantom_monitoring_clien.Base.{
  ℕ, ◌≡◌, refl, sym, ◌∙◌, List, [], ◌∷◌, ◌++◌, none, some, Bool, true, false, ◌&&◌, ◌||◌,
  Bool-cases, inl, inr, Bytes, codes, if◌then◌else◌, str_eq, map, concat, All, append_assoc,
  append-nil,
}
use phantom_monitoring_clien.Publisher.{
  Curl, Net, Request, check_url, check_message, create_new_experiment, is_set,
}
use phantom_monitoring_clien.Publisher.Handles.{create_new_experiment_answered}
use phantom_monitoring_clien.Publisher.Lines.{drop_last, publish_file}
use phantom_monitoring_clien.Publisher.Batches.{tens}
use phantom_monitoring_clien.Publisher.Delivery.{batch_request, publish_file-reliable}
use phantom_monitoring_clien.Publisher.Receive.{Stream, Realloc, deliver}
use phantom_monitoring_clien.Api.{file_in}
use phantom_monitoring_clien.Api.Session.{returns}
use phantom_monitoring_clien.Api.Send.Left.{
  Files, left, unlink-other, left-directory, left-keep, left-gone,
}
use phantom_monitoring_clien.Api.Send.{
  Target, Store, fits_buffer, experiment_text, experiments_path, metrics_path, static_text, unlink,
  send_entry, send_entries, send_directory, after_experiment, mf_send,
}

-- No name stands twice.
abbrev pub IsDistinct : List Bytes → Type 0
IsDistinct [] = Unit
IsDistinct (x ∷ xs) = All (λ y. str_eq y x ≡ false) xs × IsDistinct xs

-- The requests for one file, whose lines are `content name`.
abbrev pub file_requests : Target → Bytes → (Bytes → List Bytes) → Bytes → List Request
file_requests t experiment_id content name =
    map (batch_request (metrics_path t) (static_text t experiment_id name))
      (tens (map drop_last (content name)))

abbrev pub IsReadable : Target → Bytes → Files → (Bytes → List Bytes) → Bytes → Type 0
IsReadable t experiment_id files content name =
    (fits_buffer (file_in t.data_path name) ≡ true)
    × (fits_buffer (static_text t experiment_id name) ≡ true)
    × (files (file_in t.data_path name) ≡ some (content name))

set-append : (a b : Bytes) → is_set (some b) ≡ true → is_set (some (a ++ b)) ≡ true
unfolding is_set
set-append [] b e = e
set-append (c ∷ a) b e = refl

append-set : (a b : Bytes) → is_set (some a) ≡ true → is_set (some (a ++ b)) ≡ true
unfolding is_set
append-set [] b e = cc
append-set (c ∷ a) b e = refl

metrics_path-set : (t : Target) → check_url (some (metrics_path t)) ≡ true
unfolding check_url metrics_path is_set
metrics_path-set t = set-append t.server (codes "/v1/phantom_mf/metrics") refl

static_text-set :
    (t : Target) (id name : Bytes) → check_message (some (static_text t id name)) ≡ true
unfolding check_message static_text is_set
static_text-set t id name = refl

file_in-set : (path name : Bytes) → check_message (some (file_in path name)) ≡ true
unfolding check_message file_in is_set
file_in-set path name = append-set (path ++ codes "/") name (set-append path (codes "/") refl)

experiments_path-set : (t : Target) → check_url (some (experiments_path t)) ≡ true
unfolding check_url experiments_path is_set
experiments_path-set t =
    append-set (t.server ++ codes "/v1/phantom_mf/experiments/") t.application_id
      (set-append t.server (codes "/v1/phantom_mf/experiments/") refl)

experiment_text-set : (t : Target) → check_message (some (experiment_text t)) ≡ true
unfolding check_message experiment_text is_set
experiment_text-set t = refl

IsReadable-next :
    (keep : Bool) (dirs : Bytes → Bool) (t : Target) (id : Bytes) (files : Files)
    (content : Bytes → List Bytes) (x : Bytes) (names : List Bytes)
    → All (λ y. str_eq y x ≡ false) names
    → All (IsReadable t id files content) names
    → All
        (IsReadable t id
          (if keep then files else unlink dirs (file_in t.data_path x) files)
          content)
        names
IsReadable-next keep dirs t id files content x [] new readable = tt
IsReadable-next true dirs t id files content x (y ∷ names) new readable = readable
IsReadable-next false dirs t id files content x (y ∷ names) (differ, new)
      ((fits, fits', there), readable) =
    (
      (fits, fits', unlink-other dirs t.data_path x y files differ ∙ there),
      IsReadable-next false dirs t id files content x names new readable,
    )

-- Every entry is left as it was, or gone: a file goes if it is not to be kept.
abbrev pub LeftFile :
    Bool → (Bytes → Bool) → Bytes → List Bytes → Files → (Bytes → List Bytes) → Bytes → Type 0
LeftFile keep dirs path names files content name =
    left keep dirs path names files (file_in path name)
    ≡ (if keep || dirs (file_in path name) then some (content name) else none)

left-kept :
    (t : Target) (id : Bytes) (names : List Bytes) (files g : Files) (content : Bytes → List Bytes)
    → g ≡ files
    → All (IsReadable t id files content) names
    → All (λ name. g (file_in t.data_path name) ≡ some (content name)) names
left-kept t id [] files g content same readable = tt
left-kept t id (x ∷ names) files g content same ((_, _, there), readable) =
    (rw same there, left-kept t id names files g content same readable)

left-removed :
    (dirs : Bytes → Bool) (t : Target) (id : Bytes) (all names : List Bytes) (files : Files)
    (content : Bytes → List Bytes)
    → All
        (λ name.
          dirs (file_in t.data_path name) ≡ false
          → left false dirs t.data_path all files (file_in t.data_path name) ≡ none)
        names
    → All (IsReadable t id files content) names
    → All (LeftFile false dirs t.data_path all files content) names
left-removed dirs t id all [] files content gone readable = tt
left-removed dirs t id all (x ∷ names) files content (goes, gone) ((_, _, there), readable) =
    let path = file_in t.data_path x in
    (
      elim (Bool-cases (dirs path)) [
        | inl stays ↦
            left-directory false dirs t.data_path path all files stays ∙ there ∙ rw stays refl
        | inr file ↦ goes file ∙ rw file refl
      ],
      left-removed dirs t id all names files content gone readable,
    )

left-files :
    (keep : Bool) (dirs : Bytes → Bool) (t : Target) (id : Bytes) (names : List Bytes)
    (files : Files) (content : Bytes → List Bytes)
    → All (IsReadable t id files content) names
    → All (LeftFile keep dirs t.data_path names files content) names
left-files true dirs t id names files content readable =
    left-kept t id names files (left true dirs t.data_path names files) content
      (left-keep dirs t.data_path names files) readable
left-files false dirs t id names files content readable =
    left-removed dirs t id names names files content (left-gone dirs t.data_path names files)
      readable

module _ (c : Curl) (dirs : Bytes → Bool) (opens : (k : ℕ) → c.easy_init k ≡ true)
    (reliable : (k : ℕ) → (c.perform k).completes ≡ true) where
  send_entry-requests :
      (t : Target) (id : Bytes) (files : Files) (content : Bytes → List Bytes) (name : Bytes)
      (n : Net)
      → IsReadable t id files content name
      → (n' : Net) × (send_entry c dirs t id name (files, n)
          ≡ returns (
            if t.keep_local_data then files else unlink dirs (file_in t.data_path name) files,
            n',
          ))
        × (n'.requests ≡ n.requests ++ file_requests t id content name)
        × (n'.open_handles ≡ n.open_handles)
  unfolding send_entry
  send_entry-requests t id files content name n (fits, fits', readable) =
      let sent_net =
        (publish_file c files (some (metrics_path t)) (some (static_text t id name))
          (some (file_in t.data_path name)) n).1 in
      let (ok, sent, handles) =
        publish_file-reliable c files (metrics_path t) (static_text t id name)
          (file_in t.data_path name) (content name) n (metrics_path-set t)
          (static_text-set t id name) (file_in-set t.data_path name) (opens n.inits) readable
          reliable in
      (sent_net, rw (fits, fits') refl, sent, handles)

  send_entries-requests :
      (t : Target) (id : Bytes) (content : Bytes → List Bytes) (names : List Bytes) (files : Files)
      (n : Net)
      → IsDistinct names
      → All (IsReadable t id files content) names
      → (n' : Net) × (send_entries c dirs t id names (files, n)
          ≡ returns (left t.keep_local_data dirs t.data_path names files, n'))
        × (n'.requests ≡ n.requests ++ concat (map (file_requests t id content) names))
        × (n'.open_handles ≡ n.open_handles)
  unfolding send_entries
  send_entries-requests t id content [] files n distinct readable =
      (n, refl, sym (append-nil n.requests), refl)
  send_entries-requests t id content (x ∷ names) files n (new, distinct) (first, readable) =
      let next : Files =
        if t.keep_local_data then files else unlink dirs (file_in t.data_path x) files in
      let (n1, e1, r1, h1) = send_entry-requests t id files content x n first in
      let (n2, e2, r2, h2) =
        send_entries-requests t id content names next n1 distinct
          (IsReadable-next t.keep_local_data dirs t id files content x names new readable) in
      (
        n2,
        rw (send_entries, e1) e2,
        r2
            ∙ rw r1 (
                append_assoc n.requests (file_requests t id content x)
                  (concat (map (file_requests t id content) names))),
        h2 ∙ h1,
      )

send_directory-sent :
    (c : Curl) (dirs : Bytes → Bool) (t : Target) (id : Bytes) (names : List Bytes)
    (files files' : Files) (n n' : Net)
    → t.has_log ≡ true
    → send_entries c dirs t id names (files, n) ≡ returns (files', n')
    → send_directory c t id (record { entries = some names; is_directory = dirs; files = files }) n
      ≡ returns (some id, if t.keep_local_data then false else true, files', n')
unfolding send_directory
send_directory-sent c dirs t id names files files' n n' log e =
    rw (send_directory, e) (simp (log) refl)

after_experiment-id :
    (c : Curl) (t : Target) (store : Store) (s : Stream) (b : ℕ) (id : Bytes) (n : Net)
    → s ≡ record { contents = b ∷ id; is_dangling = false }
    → fits_buffer (metrics_path t) ≡ true
    → after_experiment c t store s n ≡ send_directory c t (b ∷ id) store n
unfolding after_experiment
after_experiment-id c t store s b id n e fits = rw (e, after_experiment, fits) refl

mf_send-after_experiment :
    (c : Curl) (realloc : Bytes → Realloc) (t : Target) (store : Store) (n : Net)
    → (fits_buffer (experiment_text t) && fits_buffer (experiments_path t)) ≡ true
    → let r =
        create_new_experiment c realloc
          (some (experiments_path t))
          (some (experiment_text t))
          (record { contents = []; is_dangling = false })
          n in
      mf_send c realloc t store n ≡ after_experiment c t store r.1.0 r.1.1
unfolding mf_send
mf_send-after_experiment c realloc t store n fits = rw (mf_send, fits) refl

-- When the network completes every request, the answer for the new experiment is an identifier, the
-- texts fit their buffers, the log file is open and every entry of the data's directory can be read and
-- stands there once: mf_send returns the identifier. After the one for the experiment its requests are
-- those of the files, in the directory's order, each file's lines in batches under a header with its
-- name as the type (an entry that is a directory has no lines and makes no request); the handles are
-- closed again, and each file is kept, or removed if the user wants no local data, while directories
-- stay.
pub mf_send-requests :
    (c : Curl) (realloc : Bytes → Realloc) (t : Target) (names : List Bytes) (dirs : Bytes → Bool)
    (files : Files) (content : Bytes → List Bytes) (b : ℕ) (id : Bytes) (n : Net)
    → ((k : ℕ) → c.easy_init k ≡ true)
    → ((k : ℕ) → (c.perform k).completes ≡ true)
    → deliver realloc (record { contents = []; is_dangling = false }) (c.perform n.performs).chunks
      ≡ (true, record { contents = b ∷ id; is_dangling = false })
    → (fits_buffer (experiment_text t) && fits_buffer (experiments_path t)) ≡ true
    → fits_buffer (metrics_path t) ≡ true
    → t.has_log ≡ true
    → IsDistinct names
    → All (IsReadable t (b ∷ id) files content) names
    → let first : Request = record { url = experiments_path t; body = some (experiment_text t) } in
      (n' : Net) × (mf_send c realloc t
          (record { entries = some names; is_directory = dirs; files = files })
          n
        ≡ returns (
          some (b ∷ id),
          if t.keep_local_data then false else true,
          left t.keep_local_data dirs t.data_path names files,
          n',
        ))
      × (n'.requests ≡ n.requests ++ first ∷ concat (map (file_requests t (b ∷ id) content) names))
      × (n'.open_handles ≡ n.open_handles)
      × All (LeftFile t.keep_local_data dirs t.data_path names files content) names
mf_send-requests c realloc t names dirs files content b id n opens reliable answer fits fits' log
      distinct readable =
    let buffer : Stream = record { contents = []; is_dangling = false } in
    let n1 =
      (create_new_experiment c realloc (some (experiments_path t)) (some (experiment_text t)) buffer
        n).1.1 in
    let (e1, r1, h1) =
      create_new_experiment_answered c realloc (experiments_path t) (experiment_text t) buffer
        (record { contents = b ∷ id; is_dangling = false }) n (experiments_path-set t)
        (experiment_text-set t) (opens n.inits) (reliable n.performs) answer in
    let (n2, e2, r2, h2) =
      send_entries-requests c dirs opens reliable t (b ∷ id) content names files n1 distinct
        readable in
    let store : Store = record { entries = some names; is_directory = dirs; files = files } in
    (
      n2,
      mf_send-after_experiment c realloc t store n fits
          ∙ after_experiment-id c t store _ b id n1 e1 fits'
          ∙ send_directory-sent c dirs t (b ∷ id) names files _ n1 n2 log e2,
      r2
          ∙ rw r1
              (append_assoc n.requests _ (concat (map (file_requests t (b ∷ id) content) names))),
      h2 ∙ h1,
      left-files t.keep_local_data dirs t (b ∷ id) names files content readable,
    )
