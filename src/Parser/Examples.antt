-- ===== src/Parser/Examples.antt =====
-- Tests of the parser's definitions, and their theorems at concrete inputs.
use phantom_monitoring_clien.Base.{
  length, ◌≤◌, ◌≡◌, refl, [], ◌∷◌, ◌&&◌, none, some, true, Bytes, codes, str_eq, ℤ, if◌then◌else◌,
}
use phantom_monitoring_clien.Parser.Hash.{lookup}
use phantom_monitoring_clien.Parser.Assoc.{assoc, insert}
use phantom_monitoring_clien.Parser.Values.{mfp_get_value-mfp_set_value, mfp_parse-last_value}
use phantom_monitoring_clien.Parser.Filtered.{IsAligned, zipped, kept, filtered_data}
use phantom_monitoring_clien.Parser.{
  Parser, Setting, IniResult, MfpData, mfp_set_value, mfp_get_value, mfp_parse, handle_parser,
  mfp_get_data_filtered_by_value, collect,
}

abbrev setting : Bytes → Bytes → Bytes → Setting
setting s n v = record { section = s; name = n; value = v }

abbrev sample_ini : IniResult
sample_ini = record {
  error = ℤ.pos 0;
  calls =
      setting (codes "plugins") (codes "a") (codes "off")
      ∷ setting (codes "plugins") (codes "b") (codes "on")
      ∷ setting (codes "plugins") (codes "a") (codes "on")
      ∷ [];
}

sample : Parser assoc
unfolding mfp_parse
sample = (mfp_parse assoc sample_ini).0

empty_data : MfpData
empty_data = record { keys = []; values = []; size = 0 }

overwritten_test : mfp_get_value assoc sample (codes "plugins") (codes "a") [] ≡ codes "on"
unfolding sample handle_parser mfp_set_value mfp_get_value insert lookup str_eq
overwritten_test = refl

mfp_get_value-mfp_set_value_example :
    mfp_get_value assoc
      (mfp_set_value assoc sample (codes "s") (codes "k") (codes "v"))
      (codes "s")
      (codes "k")
      []
    ≡ (if sample.ht_initialized
          && (str_eq (codes "s") (codes "s") && str_eq (codes "k") (codes "k"))
        then codes "v"
        else mfp_get_value assoc sample (codes "s") (codes "k") [])
mfp_get_value-mfp_set_value_example =
    mfp_get_value-mfp_set_value assoc sample (codes "s") (codes "k") (codes "v") (codes "s")
      (codes "k") []

mfp_parse-last_value_example :
    (mfp_get_value assoc (mfp_parse assoc sample_ini).0 (codes "plugins") (codes "a") []
      ≡ codes "on")
    × ((mfp_parse assoc sample_ini).1 ≡ true)
unfolding str_eq
mfp_parse-last_value_example =
    mfp_parse-last_value assoc sample_ini (codes "plugins") (codes "a") []

sample-initialized : sample.ht_initialized ≡ true
unfolding sample handle_parser mfp_set_value
sample-initialized = refl

filtered_data_example :
    let r =
      mfp_get_data_filtered_by_value assoc sample
        (codes "plugins")
        empty_data
        (some (codes "on")) in
    ((t : assoc.Table Bytes)
      → assoc.get (assoc.Table Bytes) sample.ht_config (codes "plugins") ≡ some t
      → length (assoc.entries Bytes t) ≤ 256
      → (r.size ≤ 256)
        × IsAligned r
        × ((k : Bytes)
            → lookup k (zipped r.keys r.values) ≡ kept (some (codes "on")) (assoc.get Bytes t k)))
    × (assoc.get (assoc.Table Bytes) sample.ht_config (codes "plugins") ≡ none → r.size ≡ 0)
filtered_data_example =
    filtered_data assoc sample (codes "plugins") empty_data (some (codes "on")) sample-initialized

filtered_test :
    (mfp_get_data_filtered_by_value assoc sample
      (codes "plugins")
      empty_data
      (some (codes "on"))).keys
    ≡ codes "a" ∷ codes "b" ∷ []
unfolding sample handle_parser mfp_set_value insert lookup str_eq mfp_get_data_filtered_by_value
    collect
filtered_test = refl
