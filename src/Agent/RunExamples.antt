-- ===== src/Agent/RunExamples.antt =====
-- The theorems on intervals, samples and the start of the agent at concrete inputs.
use phantom_monitoring_clien.Base.{
  ℕ, zero, suc, ◌/◌, ◌≡◌, refl, [], ◌∷◌, Option, none, some, true, false, Bytes, codes, str_eq, ℤ,
  arith, strtol, replicate, length-replicate,
}
use phantom_monitoring_clien.Parser.Hash.{lookup}
use phantom_monitoring_clien.Parser.Assoc.{assoc, insert}
use phantom_monitoring_clien.Parser.{
  Parser, Setting, IniResult, mfp_parse, mfp_get_value, handle_parser, mfp_set_value,
}
use phantom_monitoring_clien.Publisher.{Curl, Net}
use phantom_monitoring_clien.Publisher.Receive.{Realloc, in_place}
use phantom_monitoring_clien.Agent.Timings.{
  Timing, nanos, is_empty, timing_value, init_timings, check_conf_round,
}
use phantom_monitoring_clien.Agent.Timings.Intervals.{
  IsQuotient, IsValidTimespec, total_nanos, init_timings-configured, init_timings-default,
  check_conf_round-unreadable,
}
use phantom_monitoring_clien.Agent.Gather.{
  Sample, gather_bulk, collect_samples, append_sample, set_last,
}
use phantom_monitoring_clien.Agent.Gather.Array.{gather_bulk-array, array_text, texts}
use phantom_monitoring_clien.Agent.Gather.Capacity.{FitsMsg, gather_bulk-total, gather_bulk_single}
use phantom_monitoring_clien.Agent.Startup.{Ids, no_ids, main, parse_options, help}
use phantom_monitoring_clien.Agent.Outcome.{main_status}

abbrev setting : Bytes → Bytes → Bytes → Setting
setting s n v = record { section = s; name = n; value = v }

abbrev agent_ini : IniResult
agent_ini = record {
  error = ℤ.pos 0;
  calls =
      setting (codes "timings") (codes "a") (codes "2500000000ns")
      ∷ setting (codes "timings") (codes "default") (codes "1000000000ns")
      ∷ setting (codes "generic") (codes "platform_id") (codes "node")
      ∷ [];
}

abbrev unreadable : IniResult
unreadable = record { error = ℤ.negsuc 0; calls = [] }

config : Parser assoc
config = (mfp_parse assoc agent_ini).0

-- The plugins `a`, with an interval of its own, and `b`.
abbrev plugin_names : ℕ → Option Bytes
plugin_names zero = some (codes "a")
plugin_names (suc i) = some (codes "b")

abbrev unset : ℕ → Timing
unset i = record { interval = ℤ.pos 0; sleep_tim = record { tv_sec = 0; tv_nsec = ℤ.pos 0 } }

abbrev whole_seconds : ℕ → ℕ
whole_seconds n = n / nanos

whole_seconds-IsQuotient : IsQuotient whole_seconds
whole_seconds-IsQuotient n small = refl

interval_text : timing_value assoc config (codes "a") ≡ codes "2500000000ns"
unfolding timing_value config mfp_get_value mfp_parse handle_parser mfp_set_value insert lookup
    str_eq
interval_text = refl

interval_value : strtol (timing_value assoc config (codes "a")) ≡ ℤ.pos 2500000000
unfolding strtol
interval_value = rw interval_text refl

interval_set : is_empty (timing_value assoc config (codes "a")) ≡ false
interval_set = rw interval_text refl

interval_missing : timing_value assoc config (codes "b") ≡ []
unfolding timing_value config mfp_get_value mfp_parse handle_parser mfp_set_value insert lookup
    str_eq
interval_missing = refl

init_timings-configured_example :
    let t = init_timings whole_seconds assoc config plugin_names 2 unset 0 in
    (t.interval ≡ ℤ.pos 2500000000)
    × (total_nanos t.sleep_tim ≡ 2500000000)
    × IsValidTimespec t.sleep_tim
init_timings-configured_example =
    init_timings-configured whole_seconds assoc config plugin_names 2 0 2500000000 (codes "a") unset
      whole_seconds-IsQuotient (omega arith) refl interval_set interval_value (omega arith)

init_timings-default_example :
    let t = init_timings whole_seconds assoc config plugin_names 2 unset 1 in
    (t.sleep_tim ≡ record { tv_sec = 0; tv_nsec = ℤ.pos 0 })
    × (t.interval ≡ strtol (timing_value assoc config (codes "default")))
init_timings-default_example =
    init_timings-default whole_seconds assoc config plugin_names 2 1 (codes "b") unset (omega arith)
      refl interval_missing

check_conf_round-unreadable_example :
    let r = check_conf_round whole_seconds assoc plugin_names 2 unreadable unset in
    (r.0 ≡ ℤ.pos 0)
    × ((key : Bytes) → timing_value assoc r.1 key ≡ [])
    × ((r.2 0).sleep_tim ≡ (unset 0).sleep_tim)
check_conf_round-unreadable_example =
    check_conf_round-unreadable whole_seconds assoc plugin_names 2 unreadable unset 0 refl

-- A plugin whose first sample is missing.
abbrev samples : ℕ → Sample
samples zero = record { json = none; slept = true }
samples (suc i) = record { json = some (codes "x"); slept = true }

samples-FitsMsg : (j : ℕ) → FitsMsg (codes "{s,") samples j
samples-FitsMsg zero = omega arith
samples-FitsMsg (suc j) = omega arith

gather_bulk-total_example : (r : ℕ × Bytes) × (gather_bulk 2 (codes "{s,") samples 0 ≡ some r)
gather_bulk-total_example =
    gather_bulk-total 2 (codes "{s,") samples 0 (omega arith) samples-FitsMsg

abbrev long_text : Bytes
long_text = replicate 1018 b'x'

abbrev long_samples : ℕ → Sample
long_samples i = record { json = some long_text; slept = true }

gather_bulk_single_example :
    FitsMsg (codes "{s,") long_samples 0 × (gather_bulk 1 (codes "{s,") long_samples 0 ≡ none)
gather_bulk_single_example =
    gather_bulk_single (codes "{s,") long_text long_samples 0 refl
      (omega (arith, length-replicate {A = ℕ} 1018 b'x'))

samples_bulk : gather_bulk 2 (codes "{s,") samples 0 ≡ some (2, codes "[{s,x}]")
unfolding gather_bulk collect_samples append_sample set_last
samples_bulk = refl

gather_bulk-array_example : codes "[{s,x}]" ≡ array_text (codes "{s,") (texts samples 2 0)
gather_bulk-array_example =
    gather_bulk-array 2 (codes "{s,") samples 0 2 (codes "[{s,x}]") samples_bulk

abbrev answering : Curl
answering = record {
  easy_init = λ k. true;
  perform = λ k. record { completes = true; chunks = codes "id" ∷ [] };
}

abbrev idle : Net
idle = record { has_headers = false; inits = 0; open_handles = 0; performs = 0; requests = [] }

abbrev stays : Bytes → Realloc
stays b = in_place

abbrev only_task : Ids
only_task = record no_ids { task_id = codes "t" }

main_status_example :
    let r = main assoc answering stays true (help ∷ []) agent_ini true idle in
    (r.status ≡ 0) × (r.pid_file_left ≡ true)
unfolding parse_options
main_status_example = main_status assoc answering stays true (help ∷ []) agent_ini true idle
