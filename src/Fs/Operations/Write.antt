-- ===== src/Fs/Operations/Write.antt =====
-- `tfs_write` through an open handle: the bytes go to the file's block at the handle's offset.
use so_ii.Prelude.{
  ℕ, ◌+◌, ◌-◌, ◌*◌, ◌^◌, ◌<◌, ◌≤◌, ◌≡◌, ◌∙◌, inl, inr, refl, ap, false, List, arith, ℤ, pos,
  minus_one, length, length-take, take, Array, ltb, ltb→lt, Bool-cases, if◌then◌else◌, copy_in, set,
}
use Prim.Native.Nat.{min}
use mathlib.Core.Path.{subst}
use native.Mathlib.Nat.{mod-eq_of_lt}
use so_ii.Fs.State.{State, Inode, OpenFileEntry, ok}
use so_ii.Fs.Returns.{Returns, returns, load-ok, store-ok}
use so_ii.Fs.Returns
use so_ii.Fs.Tables.{state_block_size}
use so_ii.Fs.Tables.Search.{AllTaken}
use so_ii.Fs.Tables.Files.{IsOpen, get_open_file_entry-some}
use so_ii.Fs.Tables.Blocks.{block_fits, data_block_get_of}
use so_ii.Fs.Inodes.Delete.{inode_get_of}
use so_ii.Fs.Directory.Fill.{with_bytes, store_bytes-ok}
use so_ii.Fs.Invariant.{IsValid, File, Linked, inode_at}
use mathlib.Core.Logic.{◌↔◌}
use so_ii.Fs.Invariant.Written.{HasBlock, written, HasFiles-written, Linked-written, written-Linked}
use so_ii.Fs.Operations.{write_count, write_block, write_file, write_body, ssize_of}
use so_ii.Fs.Operations.Space.{Ensures, SameFiles, ensure_block_lem}

-- A write stops at the end of the block.
write_count-min : (k o w : ℕ) → o ≤ k → o + w < 2 ^ 64 → write_count k o w ≡ min w (k - o)
unfolding write_count
write_count-min k o w le small = ground arith

pub ssize_of-pos : (n : ℕ) → n < 2 ^ 63 → ssize_of n ≡ pos n
unfolding ssize_of
ssize_of-pos n h = ground arith

abbrev pub entry_at : State → ℕ → OpenFileEntry
entry_at s h = s.open_file_table.at h

-- The entry of the handle and the inode, after `count` bytes.
abbrev pub advanced : State → (h count : ℕ) → OpenFileEntry
advanced s h count = record (entry_at s h) { of_offset = (entry_at s h).of_offset + count }

abbrev pub grown : State → (n size : ℕ) → Inode
grown s n size = record (inode_at s n) {
  i_size = if ltb (inode_at s n).i_size size then size else (inode_at s n).i_size;
}

-- The state after the first `count` bytes of `buffer` have gone to block `b` of file `n`.
abbrev pub wrote : State → (n h b : ℕ) → List ℕ → (count : ℕ) → State
wrote s n h b buffer count =
    written s (b * s.fs_params.block_size + (entry_at s h).of_offset) (take count buffer) h
      (advanced s h count) n (grown s n ((entry_at s h).of_offset + count))

module _ {r : ℕ} {s : State} (n h b count : ℕ) (buffer : List ℕ) (v : IsValid r s)
    (file : File r s n) (block : HasBlock r s n b)
    (fits : (entry_at s h).of_offset + count ≤ s.fs_params.block_size) where
  -- The names lead where they led.
  pub wrote-Linked :
      (name : List ℕ) (k : ℕ) → Linked r s name k ↔ Linked r (wrote s n h b buffer count) name k
  wrote-Linked name k = (
    written-Linked n h b (entry_at s h).of_offset (take count buffer) (advanced s h count)
        (grown s n ((entry_at s h).of_offset + count)) v.core file block
        (omega (arith, length-take count buffer)) (ground (arith, file.fits)) refl refl name k,
    Linked-written n h b (entry_at s h).of_offset (take count buffer) (advanced s h count)
        (grown s n ((entry_at s h).of_offset + count)) v.core file block
        (omega (arith, length-take count buffer)) (ground (arith, file.fits)) refl refl name k,
  )

module _ {r : ℕ} {s : State} (n h b count : ℕ) (buffer : List ℕ) (v : IsValid r s)
    (file : File r s n) (low : h < s.fs_params.max_open_files_count) (block : HasBlock r s n b)
    (inode : (entry_at s h).of_inumber ≡ pos n)
    (fits : (entry_at s h).of_offset + count ≤ s.fs_params.block_size)
    (enough : count ≤ length buffer) where
  length-bytes : length (take count buffer) ≡ count
  length-bytes = omega (arith, length-take count buffer)

  wrote-IsValid : IsValid r (wrote s n h b buffer count)
  wrote-IsValid = record {
    core =
        HasFiles-written n h b (entry_at s h).of_offset (take count buffer) (advanced s h count)
          (grown s n ((entry_at s h).of_offset + count)) v.core file block
          (omega (arith, length-bytes)) (ground (arith, file.fits)) refl refl;
    links = λ name k l. v.links name k (
        Linked-written n h b (entry_at s h).of_offset (take count buffer) (advanced s h count)
          (grown s n ((entry_at s h).of_offset + count)) v.core file block
          (omega (arith, length-bytes)) (ground (arith, file.fits)) refl refl name k l);
  }

  not_short : ltb (length buffer) count ≡ false
  not_short = ground arith

  write_block-ok : write_block n h buffer count s ≡ ok (pos count) (wrote s n h b buffer count)
  unfolding write_block
  write_block-ok =
      let o = (entry_at s h).of_offset in
      let a = b * s.fs_params.block_size + o in
      let s1 = with_bytes s (copy_in s.fs_data.at a (take count buffer)) in
      let s2 = record s1 { open_file_table = set s1.open_file_table h (advanced s h count) } in
      let room = block_fits b s.fs_params.max_block_count s.fs_params.block_size block.low in
      rw (
        not_short,
        load-ok (λ s. s.inode_table) s n (omega (arith, v.core.tables, file.small)),
        data_block_get_of v.core.tables block.low block.block,
        load-ok (λ s. s.open_file_table) s h (omega (arith, v.core.tables)),
        store_bytes-ok s a (take count buffer) (omega (arith, v.core.tables, length-bytes)),
        mod-eq_of_lt {n = o + count} {m = 2 ^ 64} (omega (arith, v.core.tables)),
        store-ok (λ s. s.open_file_table) s1 h (omega (arith, v.core.tables))
            (λ s t. record s { open_file_table = t }) (advanced s h count),
        store-ok (λ s. s.inode_table) s2 n (omega (arith, v.core.tables, file.small))
            (λ s t. record s { inode_table = t }) (grown s n (o + count)),
        ssize_of-pos count (omega (arith, v.core.tables)),
      )

-- What a write of `to_write` bytes of `buffer` through handle `h` on file `n` returns and leaves:
-- `count` bytes go to the block, or there is nothing to write, or no block for them.
pub data WriteOutcome (s : State) (n h : ℕ) (buffer : List ℕ) (count : ℕ) (z : ℤ) (s' : State)
    : Type 0 where
  nothing : count ≡ 0 → z ≡ pos 0 → s' ≡ s → WriteOutcome s n h buffer count z s'
  no_space :
      0 < count
      → AllTaken s.free_blocks.at 0 s.fs_params.max_block_count
      → z ≡ minus_one
      → s' ≡ s
      → WriteOutcome s n h buffer count z s'
  done :
      0 < count
      → (b : ℕ) (s1 : State) → Ensures s n b s1
      → z ≡ pos count
      → s' ≡ wrote s1 n h b buffer count
      → WriteOutcome s n h buffer count z s'

module _ {r : ℕ} {s : State} (n h to_write : ℕ) (buffer : List ℕ) (v : IsValid r s) (o : IsOpen s h)
    (inode : (entry_at s h).of_inumber ≡ pos n) (file : File r s n)
    (inside : (entry_at s h).of_offset ≤ s.fs_params.block_size)
    (no_wrap : (entry_at s h).of_offset + to_write < 2 ^ 64)
    (enough : to_write ≤ length buffer) where
  -- The number of bytes that fit.
  abbrev room : ℕ
  room = min to_write (s.fs_params.block_size - (entry_at s h).of_offset)

  -- The write itself, in the state in which the file has its block.
  write_there :
      (b : ℕ) {s1 : State}
      → 0 < min to_write (s.fs_params.block_size - (entry_at s h).of_offset)
      → IsValid r s1
      → HasBlock r s1 n b
      → SameFiles s s1 n
      → Ensures s n b s1
      → Returns
          (λ z s'.
            IsValid r s'
            × WriteOutcome s n h buffer
                (min to_write (s.fs_params.block_size - (entry_at s h).of_offset))
                z
                s')
          (write_block n h buffer
            (min to_write (s.fs_params.block_size - (entry_at s h).of_offset))
            s1)
  write_there b {s1} q w block same ensures =
      let e : entry_at s1 h ≡ entry_at s h =
        ap (λ (t : Array OpenFileEntry). t.at h) same.handles in
      let low : h < s1.fs_params.max_open_files_count = rw same.params o.small in
      let low_n : n < s1.fs_params.max_inode_count = rw same.params file.small in
      let file1 : File r s1 n = record {
        not_root = file.not_root;
        small = low_n;
        fits = rw (same.size, same.params) file.fits;
        stored = λ _. (b, block.block, block.low, block.not_root);
      } in
      let inode1 : (entry_at s1 h).of_inumber ≡ pos n = rw e inode in
      let fits : (entry_at s1 h).of_offset + room ≤ s1.fs_params.block_size =
        rw (e, same.params) (omega arith) in
      let is = wrote-IsValid n h b room buffer w file1 low block inode1 fits (omega arith) in
      rw (write_block-ok n h b room buffer w file1 low block inode1 fits (omega arith))
        (returns (is, done q b s1 ensures refl refl))

  write_file_lem :
      Returns
        (λ z s'.
          IsValid r s'
          × WriteOutcome s n h buffer
              (min to_write (s.fs_params.block_size - (entry_at s h).of_offset))
              z
              s')
        (write_file h buffer to_write s)
  unfolding write_file state_block_size
  write_file_lem =
      let count =
        write_count-min s.fs_params.block_size (entry_at s h).of_offset to_write inside no_wrap in
      rw
        (
          load-ok (λ s. s.open_file_table) s h (omega (arith, v.core.tables, o.small)),
          inode_get_of v.core.tables n file.small inode,
          count,
        )
        (elim (Bool-cases
          (ltb 0 (min to_write (s.fs_params.block_size - (entry_at s h).of_offset)))) [
            | inr none' ↦
                let zero' : min to_write (s.fs_params.block_size - (entry_at s h).of_offset) ≡ 0 =
                  ground arith in
                rw none' (
                  returns
                    (v, nothing zero' (ap ssize_of zero' ∙ ssize_of-pos 0 (omega arith)) refl))
            | inl some' ↦
                let q : 0 < min to_write (s.fs_params.block_size - (entry_at s h).of_offset) =
                  ltb→lt 0 _ some' in
                rw some' (
                  Returns.bind (ensure_block_lem n v file) λ space s1 spaces. elim spaces [
                    | inr (e, full, same) ↦ rw (e, same) (returns (v, no_space q full refl refl))
                    | inl (b, e, w, block, same, ensures) ↦
                        rw e (write_there b q w block same ensures)
                  ])
          ])

module _ {r : ℕ} {s : State} (n h to_write : ℕ) (buffer : List ℕ) (v : IsValid r s) (o : IsOpen s h)
    (inode : (entry_at s h).of_inumber ≡ pos n)
    (inside : (entry_at s h).of_offset ≤ s.fs_params.block_size)
    (no_wrap : (entry_at s h).of_offset + to_write < 2 ^ 64)
    (enough : to_write ≤ length buffer) where
  pub write_body_lem :
      Returns
        (λ z s'.
          IsValid r s'
          × WriteOutcome s n h buffer
              (min to_write (s.fs_params.block_size - (entry_at s h).of_offset))
              z
              s')
        (write_body (pos h) buffer to_write s)
  unfolding write_body
  write_body_lem =
      let (m, e, f) = v.core.open_files h o in
      let same : m ≡ n = cc (e, inode) in
      let file : File r s n = subst (File r s) same f in
      rw (get_open_file_entry-some v.core.tables h o)
        (write_file_lem n h to_write buffer v o inode file inside no_wrap enough)
