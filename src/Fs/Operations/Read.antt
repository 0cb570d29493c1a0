-- ===== src/Fs/Operations/Read.antt =====
-- `tfs_read` through an open handle: the bytes come from the file's block at the handle's offset.
use so_ii.Prelude.{
  ℕ, ◌+◌, ◌-◌, ◌*◌, ◌^◌, ◌<◌, ◌≤◌, ◌≡◌, ◌∙◌, inl, inr, refl, List, [], arith, pos, ltb, ltb→lt,
  lt→ltb, le→leb, Bool-cases, slice, set,
}
use Prim.Native.Nat.{min}
use mathlib.Core.Path.{subst}
use native.Mathlib.Nat.{mod-eq_of_lt}
use so_ii.Fs.State.{State, ok, load_bytes}
use so_ii.Fs.Returns.{Returns, returns, load-ok, store-ok}
use so_ii.Fs.Tables.Files.{IsOpen, get_open_file_entry-some}
use so_ii.Fs.Tables.Blocks.{block_fits, data_block_get_of}
use so_ii.Fs.Inodes.Delete.{inode_get_of}
use so_ii.Fs.Invariant.{IsValid, File, inode_at}
use so_ii.Fs.Invariant.Handles.{HasFiles-moved}
use so_ii.Fs.Operations.{Reply, read_count, read_file, read_body}
use so_ii.Fs.Operations.Write.{entry_at, advanced, ssize_of-pos}

-- A read stops at the end of the file, if it starts before it.
read_count-min :
    (size o len : ℕ) → o ≤ size → size < 2 ^ 64 → read_count size o len ≡ min len (size - o)
unfolding read_count
read_count-min size o len le small = ground arith

-- Past the end of the file the difference wraps, and a read takes all that it is asked for.
read_count-past_end :
    (size o len : ℕ) → size < o → o ≤ 2 ^ 63 → len < 2 ^ 63 → read_count size o len ≡ len
unfolding read_count
read_count-past_end size o len past small low = ground arith

-- `s` with handle `h` moved on by `count` bytes.
abbrev pub moved : State → (h count : ℕ) → State
moved s h count = record s { open_file_table = set s.open_file_table h (advanced s h count) }

-- The bytes of block `b` at the handle's offset.
abbrev pub bytes_of : State → (h b count : ℕ) → List ℕ
bytes_of s h b count =
    slice s.fs_data.at (b * s.fs_params.block_size + (entry_at s h).of_offset) count

load_bytes-ok :
    (s : State) (a n : ℕ)
    → a + n ≤ s.fs_data.size
    → load_bytes a n s ≡ ok (slice s.fs_data.at a n) s
unfolding load_bytes
load_bytes-ok s a n h = rw (le→leb (a + n) s.fs_data.size h)

-- What a read of `count` bytes through handle `h` on file `n` returns and leaves.
pub data ReadOutcome (s : State) (n h count : ℕ) (reply : Reply) (s' : State) : Type 0 where
  nothing : count ≡ 0 → reply ≡ (pos 0, []) → s' ≡ s → ReadOutcome s n h count reply s'
  done :
      0 < count
      → (b : ℕ) → (inode_at s n).i_data_block ≡ pos b
      → reply ≡ (pos count, bytes_of s h b count)
      → s' ≡ moved s h count
      → ReadOutcome s n h count reply s'

module _ {r : ℕ} {s : State} (n h len : ℕ) (v : IsValid r s) (o : IsOpen s h)
    (inode : (entry_at s h).of_inumber ≡ pos n) (small : n < s.fs_params.max_inode_count) where
  moved-IsValid : (count : ℕ) → IsValid r (moved s h count)
  moved-IsValid count = record {
    core = HasFiles-moved h (advanced s h count) refl v.core;
    links = v.links;
  }

  -- A read of `count` bytes that lie in the block.
  read_there :
      (b count : ℕ)
      → read_count (inode_at s n).i_size (entry_at s h).of_offset len ≡ count
      → 0 < count
      → (inode_at s n).i_data_block ≡ pos b
      → b < s.fs_params.max_block_count
      → (entry_at s h).of_offset + count ≤ s.fs_params.block_size
      → read_file h len s ≡ ok (pos count, bytes_of s h b count) (moved s h count)
  unfolding read_file
  read_there b count e q block low fits =
      let off = (entry_at s h).of_offset in
      let room = block_fits b s.fs_params.max_block_count s.fs_params.block_size low in
      rw (
        load-ok (λ s. s.open_file_table) s h (omega (arith, v.core.tables, o.small)),
        inode_get_of v.core.tables n small inode,
        load-ok (λ s. s.inode_table) s n (omega (arith, v.core.tables)),
        e,
        lt→ltb 0 count q,
        data_block_get_of v.core.tables low block,
        load_bytes-ok s (b * s.fs_params.block_size + off) count (omega (arith, v.core.tables)),
        mod-eq_of_lt {n = off + count} {m = 2 ^ 64} (omega (arith, v.core.tables)),
        store-ok (λ s. s.open_file_table) s h (omega (arith, v.core.tables, o.small))
            (λ s t. record s { open_file_table = t }) (advanced s h count),
        ssize_of-pos count (omega (arith, v.core.tables)),
      )

  read_nothing :
      read_count (inode_at s n).i_size (entry_at s h).of_offset len ≡ 0
      → read_file h len s ≡ ok (pos 0, []) s
  unfolding read_file
  read_nothing e = rw (
    load-ok (λ s. s.open_file_table) s h (omega (arith, v.core.tables, o.small)),
    inode_get_of v.core.tables n small inode,
    load-ok (λ s. s.inode_table) s n (omega (arith, v.core.tables)),
    e,
    ssize_of-pos 0 (omega arith),
  )

module _ {r : ℕ} {s : State} (n h len : ℕ) (v : IsValid r s) (o : IsOpen s h)
    (inode : (entry_at s h).of_inumber ≡ pos n) where
  file : File r s n
  file =
      let (m, e, f) = v.core.open_files h o in
      let same : m ≡ n = cc (e, inode) in subst (File r s) same f

  read_file_lem :
      (entry_at s h).of_offset ≤ (inode_at s n).i_size
      → Returns
          (λ reply s'.
            IsValid r s'
            × ReadOutcome s n h
                (min len ((inode_at s n).i_size - (entry_at s h).of_offset))
                reply
                s')
          (read_file h len s)
  read_file_lem inside =
      let count = min len ((inode_at s n).i_size - (entry_at s h).of_offset) in
      let e = read_count-min (inode_at s n).i_size (entry_at s h).of_offset len inside (
        omega (
          arith,
          file.fits,
          v.core.tables,
          block_fits r s.fs_params.max_block_count s.fs_params.block_size v.core.root_small,
        )) in
      elim (Bool-cases (ltb 0 count)) [
        | inr none' ↦
            let zero' : count ≡ 0 = ground arith in
            rw (read_nothing n h len v o inode file.small (e ∙ zero'))
              (returns (v, nothing zero' refl refl))
        | inl some' ↦
            let q : 0 < count = ltb→lt 0 _ some' in
            let (b, block, low, ne) = file.stored (omega arith) in
            rw
              (read_there n h len v o inode file.small b count e q block low
                (omega (arith, file.fits)))
              (returns (moved-IsValid n h len v o inode file.small count, done q b block refl refl))
      ]

  pub read_body_lem :
      (entry_at s h).of_offset ≤ (inode_at s n).i_size
      → Returns
          (λ reply s'.
            IsValid r s'
            × ReadOutcome s n h
                (min len ((inode_at s n).i_size - (entry_at s h).of_offset))
                reply
                s')
          (read_body (pos h) len s)
  unfolding read_body
  read_body_lem inside = rw (get_open_file_entry-some v.core.tables h o) (read_file_lem inside)

  -- From a valid state, for an open handle on inode `n` whose offset is past the end of the file, as
  -- after a truncation through another handle: a read of `len` bytes that end inside the block
  -- returns `len` and the bytes that the file's old block holds, and not 0.
  pub read_past_end :
      (b : ℕ)
      → (inode_at s n).i_size < (entry_at s h).of_offset
      → (inode_at s n).i_data_block ≡ pos b
      → b < s.fs_params.max_block_count
      → (entry_at s h).of_offset + len ≤ s.fs_params.block_size
      → 0 < len
      → read_body (pos h) len s ≡ ok (pos len, bytes_of s h b len) (moved s h len)
  unfolding read_body
  read_past_end b past block low fits q =
      let room = block_fits b s.fs_params.max_block_count s.fs_params.block_size low in
      rw (get_open_file_entry-some v.core.tables h o) (
        read_there n h len v o inode file.small b len
          (read_count-past_end (inode_at s n).i_size (entry_at s h).of_offset len past
            (omega (arith, v.core.tables)) (omega (arith, v.core.tables)))
          q block low fits)
