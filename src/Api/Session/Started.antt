-- ===== src/Api/Session/Started.antt =====
-- What mf_start leaves, on every path that stays in bounds.
use phantom_monitoring_clien.Base.{
  ℕ, zero, suc, ◌≤◌, ◌≡◌, refl, ap, ◌∙◌, List, [], ◌∷◌, ◌++◌, none, some, Bool, true, Bytes, codes,
  if◌then◌else◌, ◌==◌, take, length, strrchr, strrchr-append, arith, Bool-cases, inl, inr,
}
use phantom_monitoring_clien.Base.Float.{FloatOps}
use phantom_monitoring_clien.Base.Numeral.Decimal.{decimal}
use phantom_monitoring_clien.Publisher.{Curl, Net}
use phantom_monitoring_clien.Publisher.Receive.{Realloc}
use phantom_monitoring_clien.Api.Parameters.{get_config_parameters}
use phantom_monitoring_clien.Api.Session.{
  returns, EachMetric, Metrics, Os, Prepared, prepare_in, prepare_at, api_prepare, after_query, Api,
  set_path, create_threads, start_monitors, configure, mf_start,
}

-- How many of the threads `t` to `t + n - 1` are created before the first failure.
abbrev pub created : Os → ℕ → ℕ → ℕ
created os zero t = 0
created os (suc n) t = let later = created os n (suc t) in if os.creates t then suc later else 0

create_threads-created :
    (os : Os) (n t : ℕ) (entries : List EachMetric)
    → n ≤ length entries
    → create_threads os n t entries ≡ returns (created os n t == n, take (created os n t) entries)
unfolding create_threads
create_threads-created os zero t entries le = refl
create_threads-created os (suc n) t [] le = absurd (omega arith)
create_threads-created os (suc n) t (e ∷ entries) le = elim (Bool-cases (os.creates t)) [
  | inl ok ↦
      rw (ok, create_threads-created os n (suc t) entries (omega arith))
        (ap (λ b. returns (b, e ∷ take (created os n (suc t)) entries)) (ground arith))
  | inr fails ↦ rw fails (ap (λ b. returns (b, [])) (ground arith))
]

api_prepare-folder :
    (os : Os) (path folder name : Bytes)
    → os.exe ≡ some path
    → strrchr (take 200 path) b'/' ≡ some (folder, name)
    → api_prepare os ≡ returns (prepare_in os folder)
unfolding api_prepare prepare_at
api_prepare-folder os path folder name e slash = ap (prepare_at os) e ∙ rw (prepare_at, slash) refl

module _ (fl : FloatOps) (atof : Bytes → fl.Double) (c : Curl) (realloc : Bytes → Realloc) where
  open fl use {Double}

  -- The state once the path is known and the query answered, and with threads.
  abbrev pub configured_api : Os → Prepared → (ℕ → Double) → Net → Api fl → Api fl
  configured_api os p values n a = record a {
    prepared = p;
    pid = os.pid;
    parameters_value = values;
    net = n;
  }

  abbrev pub started_api : Os → Metrics → Api fl → Api fl
  started_api os m a = record a {
    running = true;
    keep_local_data_flag = m.local_data_storage;
    num_threads = m.num_metrics;
    threads = take (created os m.num_metrics 0) m.entries;
  }

-- mf_start with at most as many metrics as the arrays have entries, for an executable in a folder. If
-- the query for the parameters fails it returns NULL and starts nothing. Otherwise it takes the
-- metrics in order, and has created the threads before the first that cannot be created; only if
-- there is no such thread it returns the path of the data, the folder with the pid below it. It counts
-- all the metrics as threads in either case.
pub mf_start_outcome :
    (fl : FloatOps) (atof : Bytes → fl.Double) (c : Curl) (realloc : Bytes → Realloc) (os : Os)
    (server platform_id path folder name : Bytes) (m : Metrics) (a : Api fl) (configured : Bool)
    (values : ℕ → fl.Double) (n : Net)
    → os.exe ≡ some path
    → strrchr (take 200 path) b'/' ≡ some (folder, name)
    → get_config_parameters fl atof c realloc server platform_id a.net a.parameters_value
      ≡ (some (configured, values), n)
    → m.num_metrics ≤ length m.entries
    → let p = prepare_in os folder in
      let b = configured_api fl atof c realloc os p values n a in
      (mf_start fl atof c realloc os server platform_id m a ≡ (
        if configured
        then returns (
          if created os m.num_metrics 0 == m.num_metrics then some p.data_path else none,
          started_api fl atof c realloc os m b,
        )
        else returns (none, b)))
      × (p.data_path ≡ folder ++ codes "/" ++ decimal os.pid)
      × (take 200 path ≡ folder ++ name)
unfolding mf_start configure after_query start_monitors set_path prepare_in
mf_start_outcome fl atof c realloc os server platform_id path folder name m a configured values n e
      slash answer le =
    (
      rw (mf_start, set_path, api_prepare-folder os path folder name e slash)
          (ap (after_query fl os m (record a { prepared = prepare_in os folder; pid = os.pid }))
              answer
            ∙ elim (Bool-cases configured) [
              | inl ok ↦
                  rw
                    (
                      ok,
                      after_query,
                      start_monitors,
                      create_threads-created os m.num_metrics 0 m.entries le,
                    )
                    refl
              | inr bad ↦ rw (bad, after_query) refl
            ]),
      refl,
      strrchr-append (take 200 path) b'/' slash,
    )
