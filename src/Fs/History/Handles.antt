-- ===== src/Fs/History/Handles.antt =====
-- The calls keep every open handle inside a file in use.
use so_ii.Prelude.{
  ℕ, ◌+◌, ◌≤◌, ◌≡◌, ◌≢◌, ◌∙◌, sym, ap, arith, inl, inr, refl, pos, List, set, update, update_ne,
  update_self,
}
use mathlib.Core.Path.{subst}
use native.Mathlib.Decide.{ℕ_discrete}
use so_ii.Fs.State.{State, Inode, OpenFileEntry, taken, free}
use so_ii.Fs.Tables.Files.{IsOpen, opened}
use so_ii.Fs.Inodes.Create.{with_new_file, new_file}
use so_ii.Fs.Directory.Fill.{with_bytes}
use so_ii.Fs.Invariant.{inode_at}
use so_ii.Fs.Invariant.Handles.{closed}
use so_ii.Fs.Invariant.Inodes.{freed_inode, with_inode}
use so_ii.Fs.Operations.Write.{entry_at, advanced, grown, wrote}
use so_ii.Fs.Operations.Read.{moved}
use so_ii.Fs.Operations.Space.{Ensures}
use so_ii.Fs.Invariant.Blocks.{taken_block}
use so_ii.Fs.Contents.{InUse}
use so_ii.Fs.History.{LeadsTo, HandlesInside}

module _ {s : State} (v : HandlesInside s) where
  pub closed-HandlesInside : (h : ℕ) → HandlesInside (closed s h)
  closed-HandlesInside h k o =
      v k (record { small = o.small; is_taken = ground (arith, o.is_taken) })

  -- Handle `h` with the entry `e`.
  module _ (h n : ℕ) (e : OpenFileEntry) (leads : e.of_inumber ≡ pos n) (u : InUse s n)
      (inside : e.of_offset ≤ (inode_at s n).i_size) where
    new_entry : LeadsTo (record s { open_file_table = set s.open_file_table h e }) h n
    new_entry =
        let same = update_self s.open_file_table.at h e in
        (
          ap (λ (e : OpenFileEntry). e.of_inumber) same ∙ leads,
          u,
          (let o = ap (λ (e : OpenFileEntry). e.of_offset) same in omega (arith, o, inside)),
        )

    old_entry :
        (k : ℕ)
        → h ≢ k
        → (m : ℕ) → LeadsTo s k m
        → LeadsTo (record s { open_file_table = set s.open_file_table h e }) k m
    old_entry k other m (leads, u, inside) =
        let same = update_ne s.open_file_table.at h e k other in
        (
          ap (λ (e : OpenFileEntry). e.of_inumber) same ∙ leads,
          u,
          (let o = ap (λ (e : OpenFileEntry). e.of_offset) same in omega (arith, o, inside)),
        )

    any_entry :
        (k : ℕ)
        → (h ≢ k → IsOpen s k)
        → (m : ℕ) × LeadsTo (record s { open_file_table = set s.open_file_table h e }) k m
    any_entry k o = elim (ℕ_discrete h k) [
      | yes same ↦ (
        n,
        subst (λ (j : ℕ). LeadsTo (record s { open_file_table = set s.open_file_table h e }) j n)
            same new_entry,
      )
      | no other ↦ let (m, leads) = v k (o other) in (m, old_entry k other m leads)
    ]

  pub opened-HandlesInside :
      (h n offset : ℕ)
      → InUse s n
      → offset ≤ (inode_at s n).i_size
      → HandlesInside (opened s h (pos n) offset)
  opened-HandlesInside h n offset u inside k o =
      any_entry h n (record { of_inumber = pos n; of_offset = offset }) refl u inside k
        λ other. record {
          small = o.small;
          is_taken = sym (update_ne s.free_open_file_entries.at h taken k other) ∙ o.is_taken;
        }

  pub moved-HandlesInside :
      (h n count : ℕ)
      → LeadsTo s h n
      → (entry_at s h).of_offset + count ≤ (inode_at s n).i_size
      → HandlesInside (moved s h count)
  moved-HandlesInside h n count (leads, u, _) inside k o =
      any_entry h n (record (entry_at s h) { of_offset = (entry_at s h).of_offset + count }) leads u
        inside k λ other. record { small = o.small; is_taken = o.is_taken }

  -- Inode `n` is free, so no handle leads to it.
  module _ (n : ℕ) (is : s.freeinode_ts.at n ≡ free) where
    not_led_to : (m : ℕ) → InUse s m → n ≢ m
    not_led_to m u e = cc (is, u.2, ap s.freeinode_ts.at e)

    size_kept :
        (m : ℕ) → InUse s m → (update s.inode_table.at n new_file m).i_size ≡ (inode_at s m).i_size
    size_kept m u =
        ap (λ (i : Inode). i.i_size) (update_ne s.inode_table.at n new_file m (not_led_to m u))

    pub new_file-HandlesInside : (g : ℕ → ℕ) → HandlesInside (with_bytes (with_new_file s n) g)
    new_file-HandlesInside g k o =
        let (m, (leads, u, inside)) = v k (record { small = o.small; is_taken = o.is_taken }) in
        let size = size_kept m u in
        (
          m,
          (
            leads,
            (u.0, u.1, update_ne s.freeinode_ts.at n taken m (not_led_to m u) ∙ u.2),
            omega (arith, size, inside),
          ),
        )

    pub given_up-HandlesInside : HandlesInside (freed_inode (with_new_file s n) n)
    given_up-HandlesInside k o =
        let (m, (leads, u, inside)) = v k (record { small = o.small; is_taken = o.is_taken }) in
        let size = size_kept m u in
        (
          m,
          (
            leads,
            (
              u.0,
              u.1,
              update_ne (with_new_file s n).freeinode_ts.at n free m (not_led_to m u)
                  ∙ update_ne s.freeinode_ts.at n taken m (not_led_to m u)
                  ∙ u.2,
            ),
            omega (arith, size, inside),
          ),
        )

-- No file gets smaller where inode `n` does not.
update_grows :
    (f : ℕ → Inode) (n : ℕ) (i : Inode)
    → (f n).i_size ≤ i.i_size
    → (m : ℕ) → (f m).i_size ≤ (update f n i m).i_size
update_grows f n i grown' m = elim (ℕ_discrete n m) [
  | yes same ↦
      subst (λ (j : ℕ). (f j).i_size ≤ (update f n i j).i_size) same
        (let size = ap (λ (i : Inode). i.i_size) (update_self f n i) in omega (arith, size, grown'))
  | no other ↦
      let size = ap (λ (i : Inode). i.i_size) (update_ne f n i m other) in omega (arith, size)
]

-- A file gets a block.
pub Ensures-HandlesInside :
    {s : State} (v : HandlesInside s) (n b : ℕ) (s1 : State)
    → Ensures s n b s1
    → HandlesInside s1 × (s1.open_file_table ≡ s.open_file_table) × (s1.fs_params ≡ s.fs_params)
Ensures-HandlesInside v n b s1 (inl (q, block, same)) = rw same (v, refl, refl)
Ensures-HandlesInside {s} v n b s1 (inr (empty, first, same)) = rw same (inside, refl, refl)
  where
    i : Inode
    i = record (inode_at s n) { i_data_block = pos b }

    inside : HandlesInside (with_inode (taken_block s b) n i)
    inside k o =
        let (m, (leads, u, at)) = v k (record { small = o.small; is_taken = o.is_taken }) in
        (
          m,
          (
            leads,
            u,
            (let size = update_grows s.inode_table.at n i (omega arith) m in
                omega (arith, at, size)),
          ),
        )

-- A write moves its own handle to at most the end of its file, and makes no file smaller.
pub wrote-HandlesInside :
    {s : State} (v : HandlesInside s) (n h b : ℕ) (buffer : List ℕ) (count : ℕ)
    → LeadsTo s h n
    → HandlesInside (wrote s n h b buffer count)
wrote-HandlesInside {s} v n h b buffer count (leads, u, inside) k o = elim (ℕ_discrete h k) [
  | yes same ↦ (n, subst (λ (j : ℕ). LeadsTo after j n) same own)
  | no other ↦
      let (m, (leads', u', inside')) = v k (record { small = o.small; is_taken = o.is_taken }) in
      let entry = update_ne s.open_file_table.at h (advanced s h count) k other in
      let offset = ap (λ (e : OpenFileEntry). e.of_offset) entry in
      (
        m,
        (
          ap (λ (e : OpenFileEntry). e.of_inumber) entry ∙ leads',
          u',
          omega (arith, offset, inside', grows m),
        ),
      )
]
  where
    after : State
    after = wrote s n h b buffer count

    i : Inode
    i = grown s n ((entry_at s h).of_offset + count)

    grows : (m : ℕ) → (inode_at s m).i_size ≤ (update s.inode_table.at n i m).i_size
    grows = update_grows s.inode_table.at n i (ground arith)

    own : LeadsTo after h n
    own =
        let entry = update_self s.open_file_table.at h (advanced s h count) in
        let offset = ap (λ (e : OpenFileEntry). e.of_offset) entry in
        let size = ap (λ (i : Inode). i.i_size) (update_self s.inode_table.at n i) in
        (ap (λ (e : OpenFileEntry). e.of_inumber) entry ∙ leads, u, ground (arith, offset, size))
