-- ===== src/Parser.antt =====
-- src/parser/src/mf_parser.c: the configuration as a hash table of hash tables. The INI reader of
-- src/parser/libs/ini (inih) enters as its result: an error code and the handler calls it makes.
-- Buffers are texts of any length; the memory of the APR pools is not modelled.
pub mod Hash
pub mod Values
pub mod Filtered
pub mod Assoc
mod Examples
use phantom_monitoring_clien.Base.{
  ℕ, ◌+◌, ◌≡◌, ◌<◌, ltb, List, [], ◌∷◌, ◌++◌, Option, none, some, Bool, true, false, not, Bytes,
  str_eq, if◌then◌else◌, ℤ, length,
}
use Hash.{HashTable, Entries}

-- One call of the handler: section, name, value.
pub record Setting : Type 0 where
  pub section : Bytes
  pub name : Bytes
  pub value : Bytes

-- What `ini_parse` did: a negative error if the file could not be read.
pub record IniResult : Type 0 where
  pub error : ℤ
  pub calls : List Setting

abbrev pub is_negative : ℤ → Bool
is_negative (ℤ.pos n) = false
is_negative (ℤ.negsuc n) = true

-- `mfp_data`; the arrays hold 256 entries in the source, which does not check that: the model is that
-- of the code for sections that fit.
pub record MfpData : Type 0 where
  pub keys : List Bytes
  pub values : List Bytes
  pub size : ℕ

module _ (h : HashTable) where
  open h use {Table, make, get, set, entries}

  -- The file's static variables.
  pub record Parser : Type 0 where
    pub ht_initialized : Bool
    pub ht_config : Table (Table Bytes)

  -- The section's table, or a new one.
  section_table : Parser → Bytes → Table Bytes
  section_table p section = elim (get (Table Bytes) p.ht_config section) [
    | some t ↦ t
    | none ↦ make Bytes
  ]

  unfoldable pub mfp_set_value : Parser → Bytes → Bytes → Bytes → Parser
  unfolding section_table
  mfp_set_value p section key value = if not p.ht_initialized then p else record p {
    ht_config =
        set (Table Bytes) p.ht_config section (set Bytes (section_table p section) key value);
  }

  -- Writes the value into `ret_val`, which stays as it was where there is none.
  unfoldable pub mfp_get_value : Parser → Bytes → Bytes → Bytes → Bytes
  mfp_get_value p section key ret_val =
      if not p.ht_initialized then ret_val else elim (get (Table Bytes) p.ht_config section) [
        | none ↦ ret_val
        | some t ↦ elim (get Bytes t key) [ none ↦ ret_val | some value ↦ value ]
      ]

  -- The handler, called for each setting in turn.
  unfoldable pub handle_parser : Parser → List Setting → Parser
  handle_parser p [] = p
  handle_parser p (c ∷ cs) = handle_parser (mfp_set_value p c.section c.name c.value) cs

  unfoldable pub mfp_parse : IniResult → Parser × Bool
  mfp_parse r =
      let fresh : Parser = record { ht_initialized = true; ht_config = make (Table Bytes) } in
      let filled = handle_parser fresh r.calls in (filled, not (is_negative r.error))

-- The loop over a section's entries; `none` is the missing filter.
abbrev pub passes_filter : Option Bytes → Bytes → Bool
passes_filter none value = true
passes_filter (some f) value = str_eq value f

pub append_entry : MfpData → Bytes → Bytes → MfpData
append_entry d key value = record {
  keys = d.keys ++ key ∷ [];
  values = d.values ++ value ∷ [];
  size = d.size + 1;
}

unfoldable pub collect : Option Bytes → MfpData → Entries Bytes → MfpData
unfolding append_entry
collect f d [] = d
collect f d ((key, value) ∷ t) =
    collect f (if passes_filter f value then append_entry d key value else d) t

module _ (h : HashTable) where
  open h use {Table, get, entries}

  unfoldable pub mfp_get_data_filtered_by_value :
      Parser h → Bytes → MfpData → Option Bytes → MfpData
  mfp_get_data_filtered_by_value p section d f =
      if not p.ht_initialized then d else elim (get (Table Bytes) p.ht_config section) [
        | none ↦ record d { size = 0 }
        | some t ↦ collect f (record { keys = []; values = []; size = 0 }) (entries Bytes t)
      ]

  unfoldable pub mfp_get_data : Parser h → Bytes → MfpData → MfpData
  mfp_get_data p section d = mfp_get_data_filtered_by_value p section d none
