-- ===== src/Agent/Gather.antt =====
-- `gatherMetric` of src/agent/thread_handler.c: a thread samples its plugin `bulk_size` times, joins
-- the samples to a JSON array and publishes it, as long as the agent runs. What the hook returns
-- and whether nanosleep succeeds are given by the number of the sample, and `running` by the number
-- of the round. A buffer that would overflow is `none`.
pub mod Array
pub mod Capacity
use phantom_monitoring_clien.Base.{
  ℕ, zero, suc, ◌+◌, ◌*◌, List, [], ◌∷◌, ◌++◌, Option, none, some, Bool, true, false, Bytes, codes,
  if◌then◌else◌, ltb, length, ◌>>=◌,
}
use phantom_monitoring_clien.Publisher.{Curl, Net, publish_json}

abbrev pub json_len : ℕ
json_len = 1024

-- A string of C in a buffer of `size` bytes, with its NUL.
abbrev pub in_buffer : ℕ → Bytes → Option Bytes
in_buffer size s = if ltb (length s) size then some s else none

-- One call of the hook, which may return NULL, and the sleep after it.
pub record Sample : Type 0 where
  pub json : Option Bytes
  pub slept : Bool

-- The identifiers that go with every sample.
pub record Identity : Type 0 where
  pub application_id : Bytes
  pub experiment_id : Bytes
  pub task_id : Bytes
  pub platform_id : Bytes

unfoldable pub static_json : Identity → Bytes
static_json d =
    codes "{\"WorkflowID\":\""
    ++ (d.application_id
        ++ (codes "\",\"ExperimentID\":\""
            ++ (d.experiment_id
                ++ (codes "\",\"TaskID\":\""
                    ++ (d.task_id ++ (codes "\",\"host\":\"" ++ (d.platform_id ++ codes "\",")))))))

module _ (bulk_size : ℕ) (static_text : Bytes) (sample : ℕ → Sample) where
  -- `sprintf` into `msg`, `strcat` to `json_array`.
  unfoldable pub append_sample : Option Bytes → Bytes → Option Bytes
  append_sample none json_array = some json_array
  append_sample (some json) json_array =
      in_buffer json_len (static_text ++ (json ++ codes "},")) >>= λ msg.
      in_buffer (json_len * bulk_size) (json_array ++ msg)

  -- The rounds left of the `for`, and the number of the next sample.
  unfoldable pub collect_samples : ℕ → ℕ → Bytes → Option (ℕ × Bytes)
  unfolding append_sample
  collect_samples zero i json_array = some (i, json_array)
  collect_samples (suc k) i json_array = append_sample (sample i).json json_array >>= λ longer.
      elim (sample i).slept [
        | true ↦ collect_samples k (i + 1) longer
        | false ↦ some (i + 1, longer)
      ]

-- `json_array[strlen(json_array) - 1] = c`
unfoldable pub set_last : ℕ → Bytes → Bytes
set_last c [] = []
set_last c (x ∷ []) = c ∷ []
set_last c (x ∷ y ∷ s) = x ∷ set_last c (y ∷ s)

-- One round of the `while`: what is sent, and the number of the next sample.
unfoldable pub gather_bulk : ℕ → Bytes → (ℕ → Sample) → ℕ → Option (ℕ × Bytes)
unfolding collect_samples set_last
gather_bulk bulk_size static_text sample i =
    in_buffer (json_len * bulk_size) (codes "[") >>= λ json_array.
    collect_samples bulk_size static_text sample bulk_size i json_array >>= λ r.
    some (r.0, set_last b']' r.1)

module _ (c : Curl) (url static_text : Bytes) (bulk_size : ℕ) (sample : ℕ → Sample)
    (running : ℕ → Bool) where
  -- `fuel` bounds the rounds that are looked at.
  unfoldable pub gather_metric : ℕ → ℕ → ℕ → Net → Option Net
  unfolding gather_bulk
  gather_metric zero round i n = some n
  gather_metric (suc fuel) round i n = elim (running round) [
    | false ↦ some n
    | true ↦ gather_bulk bulk_size static_text sample i >>= λ r.
        gather_metric fuel (round + 1) r.0 (publish_json c (some url) (some r.1) n).1
  ]
