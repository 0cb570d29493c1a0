-- ===== src/Fs/Operations/RoundTrip.antt =====
-- What is written to a file is read back from it.
use so_ii.Prelude.{
  ℕ, ◌+◌, ◌-◌, ◌*◌, ◌≤◌, ◌<◌, ◌≡◌, ◌∙◌, inl, inr, ap, List, arith, pos, length, take, length-take,
  Array, copy_in, slice, slice-copy_in, update_self,
}
use Prim.Native.Nat.{min}
use so_ii.Fs.State.{
  Params, State, Inode, OpenFileEntry, AllocationState, free, taken, Cmd, ◌>>=◌, ◌>>◌,
}
use so_ii.Fs.Returns.{Returns, returns}
use so_ii.Fs.Returns
use so_ii.Fs.Tables.Blocks.{block_fits}
use so_ii.Fs.Tables.Files.{IsOpen, opened}
use so_ii.Fs.Invariant.{IsValid, inode_at}
use so_ii.Fs.Operations.{Reply, write_body, read_body, open_existing}
use so_ii.Fs.Operations.Existing.{open_existing_lem}
use so_ii.Fs.Operations.Space.{Ensures}
use so_ii.Fs.Operations.Write
use so_ii.Fs.Operations.Write.{entry_at, grown, wrote, write_body_lem}
use so_ii.Fs.Operations.Read
use so_ii.Fs.Operations.Read.{bytes_of, ReadOutcome, read_body_lem}

-- A write through handle `h`, and a read of file `n` through a handle of its own.
abbrev pub write_then_read : (n h : ℕ) → List ℕ → (count : ℕ) → Cmd Reply
write_then_read n h buffer count = do
  write_body (pos h) buffer count
  k ← open_existing (pos n) 0
  read_body k count

-- The state in which the file has its block, and what it shares with the one before.
module _ (s : State) (n b : ℕ) where
  same_params : (s1 : State) → Ensures s n b s1 → s1.fs_params ≡ s.fs_params
  same_params s1 (inl (q, block, same)) = ap (λ (t : State). t.fs_params) same
  same_params s1 (inr (e, first, same)) = ap (λ (t : State). t.fs_params) same

  same_inodes : (s1 : State) → Ensures s n b s1 → s1.freeinode_ts ≡ s.freeinode_ts
  same_inodes s1 (inl (q, block, same)) = ap (λ (t : State). t.freeinode_ts) same
  same_inodes s1 (inr (e, first, same)) = ap (λ (t : State). t.freeinode_ts) same

  same_handles :
      (s1 : State) → Ensures s n b s1 → s1.free_open_file_entries ≡ s.free_open_file_entries
  same_handles s1 (inl (q, block, same)) = ap (λ (t : State). t.free_open_file_entries) same
  same_handles s1 (inr (e, first, same)) = ap (λ (t : State). t.free_open_file_entries) same

  same_entries : (s1 : State) → Ensures s n b s1 → s1.open_file_table ≡ s.open_file_table
  same_entries s1 (inl (q, block, same)) = ap (λ (t : State). t.open_file_table) same
  same_entries s1 (inr (e, first, same)) = ap (λ (t : State). t.open_file_table) same

  has_block : (s1 : State) → Ensures s n b s1 → (inode_at s1 n).i_data_block ≡ pos b
  has_block s1 (inl (q, block, same)) = ap (λ (t : State). (inode_at t n).i_data_block) same ∙ block
  has_block s1 (inr (e, first, same)) =
      ap (λ (t : State). (inode_at t n).i_data_block) same
      ∙ ap (λ (i : Inode). i.i_data_block)
          (update_self s.inode_table.at n (record (inode_at s n) { i_data_block = pos b }))

-- A read from the start of a file that holds the bytes gives them back.
module _ {r : ℕ} {s : State} (n b count : ℕ) (bytes : List ℕ) (v : IsValid r s) (not_root : 0 < n)
    (small : n < s.fs_params.max_inode_count) (is : s.freeinode_ts.at n ≡ taken)
    (block : (inode_at s n).i_data_block ≡ pos b) (q : 0 < count)
    (size : count ≤ (inode_at s n).i_size)
    (held : slice s.fs_data.at (b * s.fs_params.block_size + 0) count ≡ bytes) (k : ℕ)
    (low : k < s.fs_params.max_open_files_count)
    (spare : s.free_open_file_entries.at k ≡ free) where
  module _ (h : ℕ) (h_small : h < s.fs_params.max_open_files_count)
      (w : IsValid r (opened s h (pos n) 0)) where
    here : entry_at (opened s h (pos n) 0) h ≡ record { of_inumber = pos n; of_offset = 0 }
    here = update_self s.open_file_table.at h (record { of_inumber = pos n; of_offset = 0 })

    at_start : (entry_at (opened s h (pos n) 0) h).of_offset ≡ 0
    at_start = ap (λ (e : OpenFileEntry). e.of_offset) here

    whole :
        min count ((inode_at s n).i_size - (entry_at (opened s h (pos n) 0) h).of_offset) ≡ count
    whole = omega (arith, at_start, size)

    the_bytes :
        (b' : ℕ)
        → (inode_at s n).i_data_block ≡ pos b'
        → bytes_of (opened s h (pos n) 0) h b' count ≡ bytes
    the_bytes b' e =
        let same : b' ≡ b = cc (e, block) in
        ap (λ (o : ℕ). slice s.fs_data.at (b' * s.fs_params.block_size + o) count) at_start
        ∙ ap (λ (x : ℕ). slice s.fs_data.at (x * s.fs_params.block_size + 0) count) same
        ∙ held

    read_opened :
        Returns
          (λ reply s'. IsValid r s' × (reply ≡ (pos count, bytes)))
          (read_body (pos h) count (opened s h (pos n) 0))
    read_opened =
        Returns.mono
          (read_body_lem n h count w
            (record { small = h_small; is_taken = update_self s.free_open_file_entries.at h taken })
            (ap (λ (e : OpenFileEntry). e.of_inumber) here) (omega (arith, at_start)))
          λ reply s' (w', out). (
            w',
            elim out [
              | Read.nothing none' e same ↦ absurd (omega (arith, whole, none', q))
              | Read.done q' b' block' e same ↦
                  e
                  ∙ ap (λ (c : ℕ). (pos c, bytes_of (opened s h (pos n) 0) h b' c)) whole
                  ∙ ap (λ (bs : List ℕ). (pos count, bs)) (the_bytes b' block')
            ],
          )

  read_back :
      Returns
        (λ reply s'. IsValid r s' × (reply ≡ (pos count, bytes)))
        ((open_existing (pos n) 0 >>= λ k. read_body k count) s)
  read_back =
      Returns.bind (open_existing_lem n 0 v not_root small is) λ z s1 (w, (s2, same, opens)).
        elim opens [
          | inr (e, full, same') ↦
              let limit = ap (λ (t : State). t.fs_params.max_open_files_count) same in
              let at_k = full k (omega arith) (omega (arith, low, limit)) in
              let same_k = ap (λ (t : State). t.free_open_file_entries.at k) same in
              cc (at_k, spare, same_k)
          | inl (h, e, first, same') ↦
              let w' : IsValid r (opened s h (pos n) 0) = rw (same', same) at w in
              rw (e, same', same)
                (read_opened h
                  (omega
                    (arith, first.below, ap (λ (t : State). t.fs_params.max_open_files_count) same))
                  w')
        ]

-- The state after the write.
module _ (s : State) (n h b count : ℕ) (buffer : List ℕ)
    (block : (inode_at s n).i_data_block ≡ pos b) (at_start : (entry_at s h).of_offset ≡ 0)
    (enough : count ≤ length buffer) where
  abbrev after : State
  after = wrote s n h b buffer count

  abbrev bytes : List ℕ
  bytes = take count buffer

  after_inode : inode_at after n ≡ grown s n ((entry_at s h).of_offset + count)
  after_inode = update_self s.inode_table.at n (grown s n ((entry_at s h).of_offset + count))

  after_block : (inode_at after n).i_data_block ≡ pos b
  after_block = ap (λ (i : Inode). i.i_data_block) after_inode ∙ block

  after_size : count ≤ (inode_at after n).i_size
  after_size = let e = ap (λ (i : Inode). i.i_size) after_inode in ground (arith, e, at_start)

  after_bytes : slice after.fs_data.at (b * s.fs_params.block_size + 0) count ≡ take count buffer
  after_bytes =
      let a = b * s.fs_params.block_size in
      let f = s.fs_data.at in
      let long : count ≡ length bytes = omega (arith, length-take count buffer) in
      ap (λ (o : ℕ). slice (copy_in f (a + o) bytes) (a + 0) count) at_start
      ∙ ap (λ (c : ℕ). slice (copy_in f (a + 0) bytes) (a + 0) c) long
      ∙ slice-copy_in f (a + 0) bytes

module _ {r : ℕ} {s : State} (n h count : ℕ) (buffer : List ℕ) (v : IsValid r s) (o : IsOpen s h)
    (inode : (entry_at s h).of_inumber ≡ pos n) (at_start : (entry_at s h).of_offset ≡ 0)
    (is : s.freeinode_ts.at n ≡ taken) (q : 0 < count) (fits : count ≤ s.fs_params.block_size)
    (enough : count ≤ length buffer) (j : ℕ) (room : j < s.fs_params.max_block_count)
    (spare_block : s.free_blocks.at j ≡ free) (k : ℕ) (low : k < s.fs_params.max_open_files_count)
    (spare : s.free_open_file_entries.at k ≡ free) where
  -- From a valid state, through an open handle at the start of a file in use, with a free block and
  -- a free handle: after a write of `count` bytes that fit a block, the file opened anew gives the
  -- first `count` bytes of the buffer back.
  pub write_then_read_lem :
      Returns
        (λ reply s'. IsValid r s' × (reply ≡ (pos count, take count buffer)))
        (write_then_read n h buffer count s)
  write_then_read_lem =
      Returns.bind
        (write_body_lem n h count buffer v o inode (omega (arith, at_start))
          (omega (
            arith,
            at_start,
            v.core.tables,
            block_fits r s.fs_params.max_block_count s.fs_params.block_size v.core.root_small,
          ))
          enough)
        λ z s1 (w, out). elim out [
          | Write.nothing none' e same ↦ absurd (omega (arith, none', at_start, q))
          | Write.no_space q' full e same ↦
              cc (full j (omega arith) (omega (arith, room)), spare_block)
          | Write.done q' b s0 ensures e same ↦
              let same' : s1 ≡ wrote s0 n h b buffer count =
                same ∙ ap (wrote s0 n h b buffer) (omega (arith, at_start, fits)) in
              let (m, em, f) = v.core.open_files h o in
              let same_m : m ≡ n = cc (em, inode) in
              let params = same_params s n b s0 ensures in
              let start =
                ap (λ (t : Array OpenFileEntry). (t.at h).of_offset) (same_entries s n b s0 ensures)
                ∙ at_start in
              let block = has_block s n b s0 ensures in
              rw same' (
                read_back n b count (take count buffer) (rw same' at w)
                  (omega (arith, f.not_root, same_m))
                  (omega (arith, f.small, same_m, ap (λ (p : Params). p.max_inode_count) params))
                  (ap (λ (t : Array AllocationState). t.at n) (same_inodes s n b s0 ensures) ∙ is)
                  (after_block s0 n h b count buffer block start enough) q
                  (after_size s0 n h b count buffer block start enough)
                  (after_bytes s0 n h b count buffer block start enough) k
                  (omega (arith, low, ap (λ (p : Params). p.max_open_files_count) params))
                  (ap (λ (t : Array AllocationState). t.at k) (same_handles s n b s0 ensures)
                    ∙ spare))
        ]
