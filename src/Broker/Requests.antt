-- ===== src/Broker/Requests.antt =====
-- How the broker reads a request: one byte of code, 256 of a path, 32 of a name.
use so_ii.Prelude.{ℕ, List, ◌∷◌, ℤ, pos, eq_ℤ, copy_in, slice, if◌then◌else◌}
use so_ii.Libc.{atoi}
use so_ii.Broker.{Broker, pipe_name_size, box_name_size}

-- `read` into the global buffer.
abbrev pub received : List ℕ → Broker → Broker
received bytes b = record b { buffer = copy_in b.buffer 0 bytes }

-- The three assignments after it. `beyond` is the string that stands behind the one byte of
-- `str_op_code` in memory.
unfoldable pub decode : List ℕ → Broker → Broker
decode beyond b = record b {
  op_code = op;
  client_named_pipe_path = copy_in b.client_named_pipe_path 0 (slice b.buffer 1 pipe_name_size);
  box_name =
      if eq_ℤ op (pos 7)
      then b.box_name
      else copy_in b.box_name 0 (slice b.buffer 257 box_name_size);
}
  where
    op : ℤ
    op = atoi (b.buffer 0 ∷ beyond)
