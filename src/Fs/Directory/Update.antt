-- ===== src/Fs/Directory/Update.antt =====
-- An assignment to one entry, as an operation on the map that the directory is.
use so_ii.Prelude.{
  ℕ, ◌+◌, ◌*◌, ◌≤◌, ◌<◌, ◌≡◌, ◌≢◌, ◌∙◌, ◌⊎◌, inl, inr, sym, List, arith, int_limit, pos,
}
use native.Mathlib.Decide.{ℕ_discrete, dec_lt}
use so_ii.Fs.Inodes.{dir_entry_size, entry_addr}
use so_ii.Fs.Directory.Entries.{
  IsName, IsEmpty, Holds, Binding, IsDirectory, Binds, SameEntry, view-same, Holds-same, Holds-name,
  Holds-inumber, not-IsEmpty-Holds,
}
use so_ii.Fs.Directory.Fill.{
  filled, filled_outside, filled-Holds, blanked, blanked_outside, blanked-IsEmpty,
}

-- Memory `g` differs from `f` at most in the 44 bytes of entry `e`.
abbrev pub OnlyEntry : (f g : ℕ → ℕ) (d e : ℕ) → Type 0
OnlyEntry f g d e = (x : ℕ) → (x < entry_addr d e) ⊎ (entry_addr d e + 44 ≤ x) → g x ≡ f x

entries_apart :
    (d e e' j : ℕ)
    → e' ≢ e
    → j < 44
    → (entry_addr d e' + j < entry_addr d e) ⊎ (entry_addr d e + 44 ≤ entry_addr d e' + j)
entries_apart d e e' j other p = elim (dec_lt e' e) [
  | yes before ↦ inl (omega arith)
  | no behind ↦ inr (omega arith)
]

module _ (f g : ℕ → ℕ) (d e : ℕ) (only : OnlyEntry f g d e) (e' : ℕ) (other : e' ≢ e) where
  forth : SameEntry f g (entry_addr d e')
  forth j p = sym (only (entry_addr d e' + j) (entries_apart d e e' j other p))

  back : SameEntry g f (entry_addr d e')
  back j p = only (entry_addr d e' + j) (entries_apart d e e' j other p)

module _ (f g : ℕ → ℕ) (d m e : ℕ) (only : OnlyEntry f g d e) where
  -- An entry that is not `e` binds what it bound.
  kept : (e' : ℕ) → e' ≢ e → {n : ℕ} {name : List ℕ} → Holds f d e' n name → Holds g d e' n name
  kept e' other = Holds-same f g d e' (forth f g d e only e' other)

  was : (e' : ℕ) → e' ≢ e → {n : ℕ} {name : List ℕ} → Holds g d e' n name → Holds f d e' n name
  was e' other = Holds-same g f d e' (back f g d e only e' other)

  view_other :
      IsDirectory f d m
      → IsEmpty g d e ⊎ Binding g d e
      → (e' : ℕ) → e' < m
      → IsEmpty g d e' ⊎ Binding g d e'
  view_other dir here e' p = elim (ℕ_discrete e' e) [
    | yes same ↦ rw same here
    | no other ↦ view-same f g d e' (forth f g d e only e' other) (dir.view e' p)
  ]

-- The directory `g` is `f` with `name` bound to `n` in the empty entry `e`.
module _ (f g : ℕ → ℕ) (d m e n : ℕ) (name : List ℕ) (only : OnlyEntry f g d e)
    (dir : IsDirectory f d m) (small : e < m) (new : Holds g d e n name) (empty : IsEmpty f d e)
    (fresh_inumber : (other : List ℕ) → ¬ Binds f d m other n)
    (fresh_name : (k : ℕ) → ¬ Binds f d m name k) where
  -- What `g` binds, in which entry.
  abbrev Old : (e' k : ℕ) (other : List ℕ) → Type 0
  Old e' k other = ((e' ≡ e) × (k ≡ n) × (other ≡ name)) ⊎ ((e' ≢ e) × Holds f d e' k other)

  bound : (e' k : ℕ) (other : List ℕ) → Holds g d e' k other → Old e' k other
  bound e' k other h = elim (ℕ_discrete e' e) [
    | yes same ↦ let h' = rw same at h in inl (same, Holds-inumber h' new, Holds-name h' new)
    | no differs ↦ inr (differs, was f g d m e only e' differs h)
  ]

  -- Two entries of `g` with one inode are one entry.
  one_inumber :
      (e' e'' k : ℕ) (other other' : List ℕ)
      → e' < m
      → e'' < m
      → Old e' k other
      → Old e'' k other'
      → e' ≡ e''
  one_inumber e' e'' k other other' p p' (inl (q, _, _)) (inl (q', _, _)) = q ∙ sym q'
  one_inumber e' e'' k other other' p p' (inl (q, i, _)) (inr (_, h)) =
      absurd (fresh_inumber other' (e'', p', rw i at h))
  one_inumber e' e'' k other other' p p' (inr (_, h)) (inl (q, i, _)) =
      absurd (fresh_inumber other (e', p, rw i at h))
  one_inumber e' e'' k other other' p p' (inr (_, h)) (inr (_, h')) =
      dir.same_inumber e' e'' k other other' p p' h h'

  -- Two entries of `g` with one name are one entry.
  one_name :
      (e' e'' k k' : ℕ) (other : List ℕ)
      → e' < m
      → e'' < m
      → Old e' k other
      → Old e'' k' other
      → e' ≡ e''
  one_name e' e'' k k' other p p' (inl (q, _, _)) (inl (q', _, _)) = q ∙ sym q'
  one_name e' e'' k k' other p p' (inl (q, _, i)) (inr (_, h)) =
      absurd (fresh_name k' (e'', p', rw i at h))
  one_name e' e'' k k' other p p' (inr (_, h)) (inl (q, _, i)) =
      absurd (fresh_name k (e', p, rw i at h))
  one_name e' e'' k k' other p p' (inr (_, h)) (inr (_, h')) =
      dir.same_name e' e'' k k' other p p' h h'

  bind-IsDirectory : IsDirectory g d m
  bind-IsDirectory = record {
    view = view_other f g d m e only dir (inr (n, name, new));
    same_inumber = λ e' e'' k other other' p p' h h'.
        one_inumber e' e'' k other other' p p' (bound e' k other h) (bound e'' k other' h');
    same_name = λ e' e'' k k' other p p' h h'.
        one_name e' e'' k k' other p p' (bound e' k other h) (bound e'' k' other h');
  }

  bind-Binds-name : Binds g d m name n
  bind-Binds-name = (e, small, new)

  bind-Binds-kept : (other : List ℕ) (k : ℕ) → Binds f d m other k → Binds g d m other k
  bind-Binds-kept other k (e', p, h) = elim (ℕ_discrete e' e) [
    | yes same ↦ absurd (not-IsEmpty-Holds empty (rw same at h))
    | no differs ↦ (e', p, kept f g d m e only e' differs h)
  ]

  bind-Binds-was :
      (other : List ℕ) (k : ℕ)
      → Binds g d m other k
      → ((other ≡ name) × (k ≡ n)) ⊎ Binds f d m other k
  bind-Binds-was other k (e', p, h) = elim (bound e' k other h) [
    | inl (q, i, j) ↦ inl (j, i)
    | inr (q, h') ↦ inr (e', p, h')
  ]

-- The directory `g` is `f` without the binding in entry `e`.
module _ (f g : ℕ → ℕ) (d m e n : ℕ) (name : List ℕ) (only : OnlyEntry f g d e)
    (dir : IsDirectory f d m) (small : e < m) (old : Holds f d e n name)
    (empty : IsEmpty g d e) where
  differs : (e' k : ℕ) (other : List ℕ) → Holds g d e' k other → e' ≢ e
  differs e' k other h same = not-IsEmpty-Holds empty (rw same at h)

  unbind-IsDirectory : IsDirectory g d m
  unbind-IsDirectory = record {
    view = view_other f g d m e only dir (inl empty);
    same_inumber = λ e' e'' k other other' p p' h h'.
        dir.same_inumber e' e'' k other other' p p' (was f g d m e only e' (differs e' k other h) h)
          (was f g d m e only e'' (differs e'' k other' h') h');
    same_name = λ e' e'' k k' other p p' h h'.
        dir.same_name e' e'' k k' other p p' (was f g d m e only e' (differs e' k other h) h)
          (was f g d m e only e'' (differs e'' k' other h') h');
  }

  unbind-Binds-was :
      (other : List ℕ) (k : ℕ)
      → Binds g d m other k
      → Binds f d m other k × (other ≢ name) × (k ≢ n)
  unbind-Binds-was other k (e', p, h) =
      let h' = was f g d m e only e' (differs e' k other h) h in
      (
        (e', p, h'),
        λ q. differs e' k other h (dir.same_name e' e k n name p small (rw q at h') old),
        λ q. differs e' k other h (dir.same_inumber e' e n other name p small (rw q at h') old),
      )

  unbind-Binds-kept :
      (other : List ℕ) (k : ℕ) → other ≢ name → Binds f d m other k → Binds g d m other k
  unbind-Binds-kept other k ne (e', p, h) = elim (ℕ_discrete e' e) [
    | yes same ↦ absurd (ne (Holds-name (rw same at h) old))
    | no d' ↦ (e', p, kept f g d m e only e' d' h)
  ]

-- `g` is a directory that binds `name` to `n`, and otherwise binds what `f` does.
pub record Inserts (f g : ℕ → ℕ) (d m : ℕ) (name : List ℕ) (n : ℕ) : Type 0 where
  pub directory : IsDirectory g d m
  pub new : Binds g d m name n
  pub kept : (other : List ℕ) (k : ℕ) → Binds f d m other k → Binds g d m other k
  pub was :
      (other : List ℕ) (k : ℕ)
      → Binds g d m other k
      → ((other ≡ name) × (k ≡ n)) ⊎ Binds f d m other k

-- `g` is a directory that binds what `f` does, but for `name`, which led to `n`, and has an empty
-- entry.
pub record Removes (f g : ℕ → ℕ) (d m : ℕ) (name : List ℕ) (n : ℕ) : Type 0 where
  pub directory : IsDirectory g d m
  pub kept : (other : List ℕ) (k : ℕ) → other ≢ name → Binds f d m other k → Binds g d m other k
  pub was :
      (other : List ℕ) (k : ℕ)
      → Binds g d m other k
      → Binds f d m other k × (other ≢ name) × (k ≢ n)
  pub room : (e : ℕ) × (e < m) × IsEmpty g d e

-- `g` differs from `f` at most in the `m` entries at `d`.
abbrev pub OnlyEntries : (f g : ℕ → ℕ) (d m : ℕ) → Type 0
OnlyEntries f g d m = (x : ℕ) → (x < d) ⊎ (d + m * dir_entry_size ≤ x) → g x ≡ f x

OnlyEntry-entries : (f g : ℕ → ℕ) (d m e : ℕ) → e < m → OnlyEntry f g d e → OnlyEntries f g d m
OnlyEntry-entries f g d m e p only x (inl h) = only x (inl (omega arith))
OnlyEntry-entries f g d m e p only x (inr h) = only x (inr (omega arith))

module _ (f : ℕ → ℕ) (d m e n : ℕ) (name : List ℕ) (dir : IsDirectory f d m) (p : e < m) where
  -- Writing into an empty entry binds the name, if name and inode are new.
  pub filled-Inserts :
      n < int_limit
      → IsName name
      → IsEmpty f d e
      → ((other : List ℕ) → ¬ Binds f d m other n)
      → ((k : ℕ) → ¬ Binds f d m name k)
      → Inserts f (filled f (entry_addr d e) (pos n) name) d m name n
        × OnlyEntries f (filled f (entry_addr d e) (pos n) name) d m
  filled-Inserts small is empty inumber other =
      let g = filled f (entry_addr d e) (pos n) name in
      let only : OnlyEntry f g d e = filled_outside f (entry_addr d e) (pos n) name is.short in
      let new = filled-Holds f d e n name small is in
      (
        record {
          directory = bind-IsDirectory f g d m e n name only dir p new empty inumber other;
          new = bind-Binds-name f g d m e n name only dir p new empty inumber other;
          kept = bind-Binds-kept f g d m e n name only dir p new empty inumber other;
          was = bind-Binds-was f g d m e n name only dir p new empty inumber other;
        },
        OnlyEntry-entries f g d m e p only,
      )

  -- Blanking an entry removes its binding.
  pub blanked-Removes :
      Holds f d e n name
      → Removes f (blanked f (entry_addr d e)) d m name n
        × OnlyEntries f (blanked f (entry_addr d e)) d m
  blanked-Removes old =
      let g = blanked f (entry_addr d e) in
      let only : OnlyEntry f g d e = blanked_outside f (entry_addr d e) in
      let empty = blanked-IsEmpty f d e in
      (
        record {
          directory = unbind-IsDirectory f g d m e n name only dir p old empty;
          kept = unbind-Binds-kept f g d m e n name only dir p old empty;
          was = unbind-Binds-was f g d m e n name only dir p old empty;
          room = (e, p, empty);
        },
        OnlyEntry-entries f g d m e p only,
      )
