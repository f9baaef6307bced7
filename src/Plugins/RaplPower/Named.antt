-- ===== src/Plugins/RaplPower/Named.antt =====
-- That the names which the init function stores are laid out as the sample's loop needs them.
use phantom_monitoring_clien.Base.{
  ℕ, ◌+◌, ◌<◌, ◌≤◌, ◌≡◌, List, [], ◌∷◌, ◌++◌, Bytes, codes, str_eq, if◌then◌else◌,
}
use phantom_monitoring_clien.Plugins.RaplPower.{package_names}
use phantom_monitoring_clien.Plugins.RaplPower.Blocks.{Kind, total, dram, Blocks, size}

-- The metrics that a configured event asks for.
abbrev pub kind_of : Bytes → List Kind
kind_of event =
    if str_eq event (codes "total_power")
    then total ∷ []
    else if str_eq event (codes "dram_power")
    then dram ∷ []
    else []

abbrev pub kinds_of : List Bytes → List Kind
kinds_of [] = []
kinds_of (e ∷ es) = kind_of e ++ kinds_of es

abbrev metric_of : Kind → Bytes
metric_of total = codes "total_power"
metric_of dram = codes "dram_power"

-- What is stored for one metric.
abbrev block : ℕ → List Kind → List Bytes
block n [] = []
block n (k ∷ ks) = package_names (metric_of k) n 0 ++ block n ks

-- The layout of the names, with what is stored before them.
abbrev IsLaidOut : ℕ → List Kind → (ℕ → Bytes) → ℕ → (ℕ → Bytes) → ℕ → Type 0
IsLaidOut n ks a ii b num =
    Blocks b n ks ii × (ii + size n ks ≡ num) × (num ≤ 32) × ((j : ℕ) → j < ii → b j ≡ a j)
