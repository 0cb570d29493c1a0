-- ===== src/Fs/Directory/Entries.antt =====
-- What the bytes of a directory say: each entry is empty or binds a name to an inode.
use so_ii.Prelude.{
  ℕ, ◌+◌, ◌<◌, ◌≡◌, ◌∙◌, ◌⊎◌, inl, inr, sym, true, List, arith, length, pos, minus_one, int_at,
  int_at_congr,
}
use so_ii.Fs.Strings.{strcmp_eq, IsString}
use so_ii.Fs.Strings.Compare.{strcmp_eq_congr, eq_of_strcmp_eq}
use so_ii.Fs.Inodes.{max_file_name, dir_entry_size, entry_addr}

-- A name that `add_dir_entry` accepts.
pub record IsName (name : List ℕ) : Type 0 where
  pub string : IsString name
  pub nonempty : 0 < length name
  pub short : length name < max_file_name

-- Entry `e` of the directory at `d` binds `name` to inode `n`.
pub record Holds (f : ℕ → ℕ) (d e n : ℕ) (name : List ℕ) : Type 0 where
  pub is_name : IsName name
  pub inumber : int_at f (entry_addr d e + max_file_name) ≡ pos n
  pub named : strcmp_eq f (entry_addr d e) name ≡ true

-- Entry `e` is empty, and its name is the empty string.
pub record IsEmpty (f : ℕ → ℕ) (d e : ℕ) : Type 0 where
  pub inumber : int_at f (entry_addr d e + max_file_name) ≡ minus_one
  pub blank : f (entry_addr d e) ≡ 0

abbrev pub Binding : (ℕ → ℕ) → (d e : ℕ) → Type 0
Binding f d e = (n : ℕ) × (name : List ℕ) × Holds f d e n name

-- The `m` entries at `d` are a directory: no two of them share an inode or a name.
pub record IsDirectory (f : ℕ → ℕ) (d m : ℕ) : Type 0 where
  pub view : (e : ℕ) → e < m → IsEmpty f d e ⊎ Binding f d e
  pub same_inumber :
      (e e' n : ℕ) (name name' : List ℕ)
      → e < m
      → e' < m
      → Holds f d e n name
      → Holds f d e' n name'
      → e ≡ e'
  pub same_name :
      (e e' n n' : ℕ) (name : List ℕ)
      → e < m
      → e' < m
      → Holds f d e n name
      → Holds f d e' n' name
      → e ≡ e'

-- The directory as a map: `name` leads to inode `n`.
abbrev pub Binds : (ℕ → ℕ) → (d m : ℕ) → List ℕ → ℕ → Type 0
Binds f d m name n = (e : ℕ) × (e < m) × Holds f d e n name

-- The bytes of the entry at `a` are the same.
abbrev pub SameEntry : (ℕ → ℕ) → (ℕ → ℕ) → ℕ → Type 0
SameEntry f g a = (j : ℕ) → j < dir_entry_size → f (a + j) ≡ g (a + j)

pub not-IsEmpty-Holds :
    {f : ℕ → ℕ} {d e n : ℕ} {name : List ℕ} → IsEmpty f d e → Holds f d e n name → ⊥
not-IsEmpty-Holds empty holds = cc (empty.inumber, holds.inumber)

module _ (f g : ℕ → ℕ) (d e : ℕ) (same : SameEntry f g (entry_addr d e)) where
  same_inumber_bytes :
      int_at f (entry_addr d e + max_file_name) ≡ int_at g (entry_addr d e + max_file_name)
  same_inumber_bytes =
      int_at_congr f g (entry_addr d e + max_file_name) λ j p. ground (arith, same (40 + j))

  IsEmpty-same : IsEmpty f d e → IsEmpty g d e
  IsEmpty-same empty = record {
    inumber = sym same_inumber_bytes ∙ empty.inumber;
    blank = ground (arith, same 0, empty.blank);
  }

  pub Holds-same : {n : ℕ} {name : List ℕ} → Holds f d e n name → Holds g d e n name
  Holds-same {name} holds = record {
    is_name = holds.is_name;
    inumber = sym same_inumber_bytes ∙ holds.inumber;
    named =
        sym (
          strcmp_eq_congr f g (entry_addr d e) name
            λ j p. same j (omega (arith, holds.is_name.short)))
        ∙ holds.named;
  }

  pub view-same : IsEmpty f d e ⊎ Binding f d e → IsEmpty g d e ⊎ Binding g d e
  view-same (inl empty) = inl (IsEmpty-same empty)
  view-same (inr (n, name, holds)) = inr (n, name, Holds-same holds)

-- Two names of one entry are equal, and so are two inodes.
module _ {f : ℕ → ℕ} {d e n n' : ℕ} {name name' : List ℕ} where
  pub Holds-name : Holds f d e n name → Holds f d e n' name' → name ≡ name'
  Holds-name h h' =
      eq_of_strcmp_eq f (entry_addr d e) name name' h.is_name.string h'.is_name.string h.named
        h'.named

  pub Holds-inumber : Holds f d e n name → Holds f d e n' name' → n ≡ n'
  Holds-inumber h h' = cc (h.inumber, h'.inumber)

-- A directory stays one where none of its bytes change.
pub IsDirectory-same :
    (f g : ℕ → ℕ) (d m : ℕ)
    → ((e : ℕ) → e < m → SameEntry f g (entry_addr d e))
    → ((e : ℕ) → e < m → SameEntry g f (entry_addr d e))
    → IsDirectory f d m
    → IsDirectory g d m
IsDirectory-same f g d m same back dir = record {
  view = λ e p. view-same f g d e (same e p) (dir.view e p);
  same_inumber = λ e e' n name name' p p' h h'.
      dir.same_inumber e e' n name name' p p' (Holds-same g f d e (back e p) h)
        (Holds-same g f d e' (back e' p') h');
  same_name = λ e e' n n' name p p' h h'.
      dir.same_name e e' n n' name p p' (Holds-same g f d e (back e p) h)
        (Holds-same g f d e' (back e' p') h');
}
