-- ===== src/Parser/Values.antt =====
-- What `mfp_get_value` reads after `mfp_set_value` and after `mfp_parse`.
use phantom_monitoring_clien.Base.{
  ◌≡◌, refl, ap, ◌∙◌, List, [], ◌∷◌, true, not, ◌&&◌, Bytes, str_eq, if◌then◌else◌, arith,
  str_eq_iff,
}
use phantom_monitoring_clien.Parser.Hash.{HashTable}
use phantom_monitoring_clien.Parser.{
  Parser, Setting, IniResult, mfp_set_value, mfp_get_value, handle_parser, mfp_parse, section_table,
  is_negative,
}

-- The last value that the settings give a key, or `old`.
abbrev pub last_value : Bytes → Bytes → Bytes → List Setting → Bytes
last_value section key old [] = old
last_value section key old (c ∷ cs) =
    last_value section key (if str_eq c.section section && str_eq c.name key then c.value else old)
      cs

module _ (h : HashTable) where
  open h use {Table, make, get, set, get-make, get-set}

  -- After a store the value is read back at its section and key, and every other section and key
  -- reads as before; before initialisation nothing is stored.
  pub mfp_get_value-mfp_set_value :
      (p : Parser h) (section key value section' key' ret_val : Bytes)
      → mfp_get_value h (mfp_set_value h p section key value) section' key' ret_val ≡ (
          if p.ht_initialized && (str_eq section section' && str_eq key key')
          then value
          else mfp_get_value h p section' key' ret_val)
  unfolding mfp_get_value mfp_set_value
  mfp_get_value-mfp_set_value p section key value section' key' ret_val = ground (
    arith,
    get-set (Table Bytes) p.ht_config section section'
        (set Bytes (section_table h p section) key value),
    get-set Bytes (section_table h p section) key key' value,
    get-make Bytes key',
    str_eq_iff section section',
  )

  mfp_set_value-initialized :
      (p : Parser h) (section key value : Bytes)
      → p.ht_initialized ≡ true
      → (mfp_set_value h p section key value).ht_initialized ≡ true
  unfolding mfp_set_value
  mfp_set_value-initialized p section key value e = ground arith

  handle_parser-last_value :
      (p : Parser h) (section key ret_val : Bytes) (cs : List Setting)
      → p.ht_initialized ≡ true
      → mfp_get_value h (handle_parser h p cs) section key ret_val
        ≡ last_value section key (mfp_get_value h p section key ret_val) cs
  unfolding handle_parser
  handle_parser-last_value p section key ret_val [] e = refl
  handle_parser-last_value p section key ret_val (c ∷ cs) e =
      handle_parser-last_value (mfp_set_value h p c.section c.name c.value) section key ret_val cs
        (mfp_set_value-initialized p c.section c.name c.value e)
      ∙ ap (λ v. last_value section key v cs)
          (mfp_get_value-mfp_set_value p c.section c.name c.value section key ret_val ∙ rw e)

  -- `mfp_parse` forgets what was stored before: each key reads the last value that the file gives
  -- it, and `ret_val` is left alone where the file gives none. It succeeds unless the file could
  -- not be read.
  pub mfp_parse-last_value :
      (r : IniResult) (section key ret_val : Bytes)
      → (mfp_get_value h (mfp_parse h r).0 section key ret_val
          ≡ last_value section key ret_val r.calls)
        × ((mfp_parse h r).1 ≡ not (is_negative r.error))
  unfolding mfp_parse
  mfp_parse-last_value r section key ret_val = (
    handle_parser-last_value _ section key ret_val r.calls refl
        ∙ ap (λ v. last_value section key v r.calls)
            (unfold mfp_get_value in rw (get-make (Table Bytes) section, mfp_get_value)),
    refl,
  )
