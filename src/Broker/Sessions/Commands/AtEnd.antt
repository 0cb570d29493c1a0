-- ===== src/Broker/Sessions/Commands/AtEnd.antt =====
-- A handle that is opened to append stands at the end of its file, and nothing is read through it.
use so_ii.Prelude.{
  ◌⊎◌, ℕ, ◌-◌, ◌≡◌, ap, arith, List, [], some, ℤ, pos, minus_one, inl, inr, update_self,
}
use Prim.Native.Nat.{min}
use so_ii.Fs.Strings.{IsString}
use so_ii.Fs.State.{State, OpenFileEntry, lock, unlock, taken}
use so_ii.Fs.Tables.Files.{IsOpen, Opens, opened}
use so_ii.Fs.Invariant.{IsValid, inode_at}
use so_ii.Fs.Returns.{Returns}
use so_ii.Fs.Returns
use so_ii.Fs.Operations.{Pthread, tfs_open, tfs_read}
use so_ii.Fs.Operations.Lock.{NeverFails, called}
use so_ii.Fs.Operations.Open.{OpenOutcome}
use so_ii.Fs.Operations.Open
use so_ii.Fs.Operations.Read.{ReadOutcome}
use so_ii.Fs.Operations.Write.{entry_at}
use so_ii.Fs.Operations.Read
use so_ii.Fs.Operations.Calls.{tfs_open_lem, tfs_read_lem}

-- Handle `h` is open on a file at the file's end.
pub record AtEnd (r : ℕ) (h : ℕ) (s : State) : Type 0 where
  pub valid : IsValid r s
  pub handle : IsOpen s h
  pub inode : ℕ
  pub leads : (entry_at s h).of_inumber ≡ pos inode
  pub last : (entry_at s h).of_offset ≡ (inode_at s inode).i_size

-- What an opening to append gives: an error, or a handle at the end.
abbrev pub AppendsOrFails : (r : ℕ) → ℤ → State → Type 0
AppendsOrFails r z s' = IsValid r s' × ((z ≡ minus_one) ⊎ ((h : ℕ) × (z ≡ pos h) × AtEnd r h s'))

module _ (pthread : Pthread) (never : NeverFails pthread) (r : ℕ) where
  opened-AtEnd :
      (s : State) (n : ℕ) (z : ℤ) (t : State)
      → Opens s (pos n) (inode_at s n).i_size z t
      → IsValid r (called t unlock)
      → (z ≡ minus_one) ⊎ ((h : ℕ) × (z ≡ pos h) × AtEnd r h (called t unlock))
  opened-AtEnd s n z t (inr (e, full, same)) v = inl e
  opened-AtEnd s n z t (inl (h, e, first, same)) v = inr (
    h,
    e,
    record {
      valid = v;
      handle = record {
        small = rw same (let below = first.below in omega arith);
        is_taken = rw same (update_self s.free_open_file_entries.at h taken);
      };
      inode = n;
      leads = rw same (ap (λ (e : OpenFileEntry). e.of_inumber) entry);
      last = rw same (ap (λ (e : OpenFileEntry). e.of_offset) entry);
    },
  )
    where
      entry :
          entry_at (opened s h (pos n) (inode_at s n).i_size) h
          ≡ record { of_inumber = pos n; of_offset = (inode_at s n).i_size }
      entry =
          update_self s.open_file_table.at h
            (record { of_inumber = pos n; of_offset = (inode_at s n).i_size })

  -- `tfs_open(path, TFS_O_APPEND)`.
  pub append_lem :
      (s : State) (path : List ℕ)
      → IsValid r s
      → IsString path
      → Returns (AppendsOrFails r) (tfs_open pthread (some path) 4 s)
  append_lem s path v is =
      Returns.mono (tfs_open_lem s pthread (some path) 4 never v is)
        λ z s' (w, (t, o, e), _). (w, at_end z s' t w e o)
    where
      at_end :
          (z : ℤ) (s' t : State)
          → IsValid r s'
          → s' ≡ called t unlock
          → OpenOutcome r (called s lock) (some path) 4 z t
          → (z ≡ minus_one) ⊎ ((h : ℕ) × (z ≡ pos h) × AtEnd r h s')
      at_end z s' t w e (Open.rejected bad fails same) = inl fails
      at_end z s' t w e (Open.reopened n good' linked (s1, same, opens)) =
          rw e (opened-AtEnd s1 n z t opens (rw e at w))
      at_end z s' t w e (Open.made good' new creates outcome) = cc
      at_end z s' t w e (Open.missing good' new creates fails same) = inl fails

  -- `tfs_read` at the end of the file.
  pub read_end_lem :
      (s : State) (h len : ℕ)
      → AtEnd r h s
      → Returns (λ reply s'. (reply ≡ (pos 0, [])) × AtEnd r h s') (tfs_read pthread (pos h) len s)
  read_end_lem s h len end =
      Returns.mono
        (tfs_read_lem s pthread end.inode h len never end.valid end.handle end.leads
          (omega (arith, end.last)))
        λ reply s' (w, (t, outcome, e), _). nothing_read reply s' t w e outcome
    where
      after : IsValid r (called (called s lock) unlock) → AtEnd r h (called (called s lock) unlock)
      after v = record {
        valid = v;
        handle = record { small = end.handle.small; is_taken = end.handle.is_taken };
        inode = end.inode;
        leads = end.leads;
        last = end.last;
      }

      nothing_read :
          (reply : ℤ × List ℕ) (s' t : State)
          → IsValid r s'
          → s' ≡ called t unlock
          → ReadOutcome
              (called s lock)
              end.inode
              h
              (min len ((inode_at s end.inode).i_size - (entry_at s h).of_offset))
              reply
              t
          → (reply ≡ (pos 0, [])) × AtEnd r h s'
      nothing_read reply s' t w e (Read.nothing q f same) =
          (f, rw (e, same) (after (rw (e, same) at w)))
      nothing_read reply s' t w e (Read.done q b block f same) = absurd (omega (arith, end.last))
