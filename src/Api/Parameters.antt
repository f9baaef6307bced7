-- ===== src/Api/Parameters.antt =====
-- `get_config_parameters` of src/api/src/mf_api.c: the nine parameters of the platform, from the
-- answer of the resource manager. `atof` is a parameter. Memory that is read or written out of bounds
-- is `none`.
use phantom_monitoring_clien.Base.{
  ℕ, zero, suc, ◌+◌, ◌-◌, ◌≤◌, ◌<◌, ◌≡◌, refl, List, [], ◌∷◌, ◌++◌, Option, none, some, Bool, true,
  false, Bytes, codes, if◌then◌else◌, ◌==◌, ltb, leb, length, take, drop, strstr,
}
use phantom_monitoring_clien.Base.Float.{FloatOps}
use phantom_monitoring_clien.Publisher.{Curl, Net, query_json}
use phantom_monitoring_clien.Publisher.Receive.{Stream, Realloc}
pub mod Configured

abbrev pub parameters_name : List Bytes
parameters_name =
    codes "MAX_CPU_POWER"
    ∷ codes "MIN_CPU_POWER"
    ∷ codes "MEMORY_POWER"
    ∷ codes "L2CACHE_MISS_LATENCY"
    ∷ codes "L2CACHE_LINE_SIZE"
    ∷ codes "E_DISK_R_PER_KB"
    ∷ codes "E_DISK_W_PER_KB"
    ∷ codes "E_NET_SND_PER_KB"
    ∷ codes "E_NET_RCV_PER_KB"
    ∷ []

-- What one round finds: no such name, no end of its value, a length that does not fit the 16 bytes of
-- value (with its NUL), or the text of the value.
pub data Found : Type 0 where
  absent unterminated unfit : Found
  found : Bytes → Found

-- ptr_end: the next comma, or else the next brace.
unfoldable pub find_end : Bytes → Option Bytes
find_end begin = elim (strstr begin (codes ",")) [
  | some end ↦ some end
  | none ↦ strstr begin (codes "}")
]

-- The pointers as the texts behind them; a negative value_length, as a size, is too large.
unfoldable pub copy_value : Bytes → Bytes → Bytes → Found
copy_value name begin end =
    let span = length begin - length end in
    let value_length = span - (4 + length name) in
    if ltb span (4 + length name)
    then unfit
    else if leb 16 value_length
    then unfit
    else found (take value_length (drop (3 + length name) begin))

unfoldable pub find_parameter : Bytes → Bytes → Found
unfolding copy_value
find_parameter response_str name = elim (strstr response_str name) [
  | none ↦ absent
  | some begin ↦ elim (find_end begin) [
    | none ↦ unterminated
    | some end ↦ copy_value name begin end
  ]
]

-- `%s/v1/phantom_rm/configs/%s`
unfoldable pub configs_url : Bytes → Bytes → Bytes
configs_url server platform_id = server ++ codes "/v1/phantom_rm/configs/" ++ platform_id

-- Whether a text holds another.
unfoldable pub has_text : Bytes → Bytes → Bool
has_text s p = elim (strstr s p) [ none ↦ false | some rest ↦ true ]

module _ (fl : FloatOps) (atof : Bytes → fl.Double) where
  open fl use {Double, single}

  unfoldable pub set_parameter : ℕ → Bytes → (ℕ → Double) → ℕ → Double
  set_parameter i value parameters_value j =
      if j == i then single (atof value) else parameters_value j

  -- The loop over the names, from the one numbered `i` on.
  unfoldable pub parse_parameters :
      Bytes → List Bytes → ℕ → (ℕ → Double) → Option (Bool × (ℕ → Double))
  unfolding set_parameter
  parse_parameters response_str [] i parameters_value = some (true, parameters_value)
  parse_parameters response_str (name ∷ names) i parameters_value =
      elim (find_parameter response_str name) [
        | absent ↦ parse_parameters response_str names (suc i) parameters_value
        | unterminated ↦ some (false, parameters_value)
        | unfit ↦ none
        | found value ↦
            parse_parameters response_str names (suc i) (set_parameter i value parameters_value)
      ]

  -- What follows the query.
  unfoldable pub parse_response : Stream → (ℕ → Double) → Option (Bool × (ℕ → Double))
  parse_response s parameters_value =
      if s.is_dangling
      then none
      else if has_text s.contents (codes "parameters")
      then parse_parameters s.contents parameters_name 0 parameters_value
      else some (false, parameters_value)

  unfoldable pub get_config_parameters :
      Curl
      → (Bytes → Realloc)
      → Bytes
      → Bytes
      → Net
      → (ℕ → Double)
      → Option (Bool × (ℕ → Double)) × Net
  get_config_parameters c realloc server platform_id n parameters_value =
      let buffer : Stream = record { contents = []; is_dangling = false } in
      let (answered, (s, n')) =
        query_json c realloc (some (configs_url server platform_id)) buffer n in
      (if answered then parse_response s parameters_value else some (false, parameters_value), n')
