-- ===== src/Api/Threads.antt =====
-- The threads of src/api/src/mf_api.c, interleaved in any order: mf_start creates `n` of them, each runs
-- a monitor's loop while `running` is set, and mf_end clears it and joins them one after the other.
use phantom_monitoring_clien.Base.{
  ℕ, zero, suc, ◌+◌, ◌<◌, ◌≤◌, ◌≡◌, List, [], ◌∷◌, ◌++◌, Option, none, some, Bool, true, false,
  get_elem?, set, length,
}
pub mod Joined
pub mod Ending

-- Where MonitorStart and its monitor's loop are: before the first reading, at the test of `running`,
-- in a round, or back from the loop.
pub data Thread : Type 0 where
  starting testing sampling finished : Thread

pub data Move (running : Bool) : Thread → Thread → Type 0 where
  -- The file opens and the first reading is made, or the monitor returns at once: no such metric, or
  -- no file.
  opens : Move running starting testing
  refuses : Move running starting finished
  -- `while(running)`
  goes_on : running ≡ true → Move running testing sampling
  stops : running ≡ false → Move running testing finished
  -- The end of a round, logged or skipped.
  comes_round : Move running sampling testing

-- Where the application is: in mf_start with `t` threads created, between mf_start and mf_end, in
-- mf_end with `t` threads joined, behind it, or gone with exit(0).
pub data Main : Type 0 where
  creating : ℕ → Main
  measuring : Main
  joining : ℕ → Main
  ended : Main
  exited : Main

pub record World : Type 0 where
  pub running : Bool
  pub main : Main
  pub threads : List Thread

-- A thread that can end the process: it reads.
pub data Reads : Thread → Type 0 where
  first : Reads starting
  later : Reads sampling

pub data Step (n : ℕ) (w : World) : World → Type 0 where
  create :
      (t : ℕ)
      → w.main ≡ creating t
      → t < n
      → Step n w (record w { main = creating (suc t); threads = w.threads ++ starting ∷ [] })
  start_returns : w.main ≡ creating n → Step n w (record w { main = measuring })
  end_called : w.main ≡ measuring → Step n w (record w { running = false; main = joining 0 })
  join :
      (t : ℕ)
      → w.main ≡ joining t
      → t < n
      → get_elem? w.threads t ≡ some finished
      → Step n w (record w { main = joining (suc t) })
  end_returns : w.main ≡ joining n → Step n w (record w { main = ended })
  thread_moves :
      (i : ℕ) (x y : Thread)
      → get_elem? w.threads i ≡ some x
      → Move w.running x y
      → Step n w (record w { threads = set w.threads i y })
  thread_exits :
      (i : ℕ) (x : Thread)
      → get_elem? w.threads i ≡ some x
      → Reads x
      → Step n w (record w { main = exited; threads = [] })

-- `running = 1`, before the first thread.
abbrev pub begin : World
begin = record { running = true; main = creating 0; threads = [] }

pub data Reach (n : ℕ) : World → Type 0 where
  start : Reach n begin
  next : {v w : World} → Reach n v → Step n v w → Reach n w

-- Runs of k steps.
pub data Run (n : ℕ) (v : World) : ℕ → World → Type 0 where
  stay : Run n v 0 v
  step : {u w : World} (k : ℕ) → Run n v k u → Step n u w → Run n v (suc k) w
