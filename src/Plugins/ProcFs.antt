-- ===== src/Plugins/ProcFs.antt =====
-- The readers of /proc that the connectors of src/plugins/Linux_resources and
-- src/plugins/Linux_sys_power share, in two copies. A file is the list of what `fgets` returns, and
-- `none` where it does not open; a local that the code does not initialise starts as a parameter.
use phantom_monitoring_clien.Base.{
  ℕ, ◌*◌, ◌%◌, List, [], ◌∷◌, Option, none, some, Bool, true, false, Bytes, codes, if◌then◌else◌,
  ◌==◌, get_or, drop, add64, u64_mod, is_digit, strstr, starts_with, scan_fields,
}

abbrev pub File : Type 0
File = Option (List Bytes)

pub record NetStats : Type 0 where
  pub rcv_bytes : ℕ
  pub send_bytes : ℕ

pub record IoStats : Type 0 where
  pub read_bytes : ℕ
  pub write_bytes : ℕ

-- One `strstr` and, where it finds the interface, the `sscanf` at `skip` bytes behind it. `t` is
-- temp_rcv_bytes and temp_send_bytes, which keep their values where a conversion fails.
unfoldable pub add_interface : Bytes × ℕ → Bytes → (ℕ × ℕ) × NetStats → (ℕ × ℕ) × NetStats
add_interface (name, skip) line (t, s) = elim (strstr line name) [
  | none ↦ (t, s)
  | some sub_line ↦
      let fields = scan_fields 9 (drop skip sub_line) in
      let rcv = get_or fields 0 t.0 in
      let send = get_or fields 8 t.1 in
      (
        (rcv, send),
        record { rcv_bytes = add64 s.rcv_bytes rcv; send_bytes = add64 s.send_bytes send },
      )
]

unfoldable pub add_interfaces : List (Bytes × ℕ) → Bytes → (ℕ × ℕ) × NetStats → (ℕ × ℕ) × NetStats
add_interfaces [] line s = s
add_interfaces (n ∷ ns) line s = add_interfaces ns line (add_interface n line s)

unfoldable pub net_lines : List (Bytes × ℕ) → List Bytes → (ℕ × ℕ) × NetStats → (ℕ × ℕ) × NetStats
net_lines ns [] s = s
net_lines ns (line ∷ lines) s = net_lines ns lines (add_interfaces ns line s)

-- `NET_stat_read` for the interfaces that a connector looks for, with what is behind `nets_info`.
unfoldable pub net_stat_read : List (Bytes × ℕ) → ℕ × ℕ → File → NetStats → Bool × NetStats
net_stat_read ns temp none nets_info = (false, nets_info)
net_stat_read ns temp (some lines) nets_info =
    (true, (net_lines ns lines (temp, record { rcv_bytes = 0; send_bytes = 0 })).1)

-- `sscanf(s, "%llu", &v)`
abbrev pub scan_into : Bytes → ℕ → ℕ
scan_into s v = get_or (scan_fields 1 s) 0 v

unfoldable pub io_line : Bytes → IoStats → IoStats
io_line line s = record {
  read_bytes =
      if starts_with (codes "read_bytes:") line
      then scan_into (drop 12 line) s.read_bytes
      else s.read_bytes;
  write_bytes =
      if starts_with (codes "write_bytes:") line
      then scan_into (drop 13 line) s.write_bytes
      else s.write_bytes;
}

-- The loop of `process_IO_stat_read`, with its early exit.
unfoldable pub io_lines : List Bytes → IoStats → IoStats
io_lines [] s = s
io_lines (line ∷ lines) s =
    let t = io_line line s in
    let rest = io_lines lines t in if t.read_bytes * t.write_bytes % u64_mod == 0 then rest else t

unfoldable pub process_io_stat_read : File → IoStats → Bool × IoStats
process_io_stat_read none io_info = (false, io_info)
process_io_stat_read (some lines) io_info =
    (true, io_lines lines (record { read_bytes = 0; write_bytes = 0 }))

abbrev pub starts_with_digit : Bytes → Bool
starts_with_digit [] = false
starts_with_digit (c ∷ name) = is_digit c

unfoldable pub add_io : IoStats → IoStats → IoStats
add_io total s = record {
  read_bytes = add64 total.read_bytes s.read_bytes;
  write_bytes = add64 total.write_bytes s.write_bytes;
}

module _ (io_file : Bytes → File) where
  -- The body of the loop of `sys_IO_stat_read`, for an entry of /proc, on pid_io_stat and
  -- total_io_stat; `io_file` is the file of the process that an entry names.
  unfoldable pub io_entry : Bytes → IoStats × IoStats → IoStats × IoStats
  io_entry name (pid_io_stat, total) =
      let r = process_io_stat_read (io_file name) pid_io_stat in
      if starts_with_digit name
      then (r.1, if r.0 then add_io total r.1 else total)
      else (pid_io_stat, total)

  unfoldable pub io_entries : List Bytes → IoStats × IoStats → IoStats × IoStats
  io_entries [] s = s
  io_entries (name ∷ names) s = io_entries names (io_entry name s)

  unfoldable pub sys_io_stat_read : Option (List Bytes) → IoStats → IoStats → Bool × IoStats
  unfolding io_entries
  sys_io_stat_read none pid_io_stat total_io_stat = (false, total_io_stat)
  sys_io_stat_read (some names) pid_io_stat total_io_stat =
      (true, (io_entries names (pid_io_stat, record { read_bytes = 0; write_bytes = 0 })).1)
