-- ===== src/Fs/Example.antt =====
-- A small disk with one file, "/a": three inodes, three blocks of two entries, two handles.
use so_ii.Prelude.{
  ℕ, zero, suc, ◌<◌, ◌≡◌, ◌⊎◌, inl, inr, refl, true, ◌&&◌, List, [], ◌∷◌, arith, pos, ltb, leb,
  ◌==◌, if◌then◌else◌, int_at, int_of_word,
}
use so_ii.Fs.State.{Params, State, Inode, t_file, t_directory, free, taken}
use so_ii.Fs.Strings.{strcmp_eq}
use so_ii.Fs.Layout.{HasTables}
use so_ii.Fs.Tables.Files.{IsOpen}
use so_ii.Fs.Directory.Entries.{
  IsName, Holds, IsEmpty, IsDirectory, Binding, Holds-inumber, Holds-name, not-IsEmpty-Holds,
}
use so_ii.Fs.Invariant.{File, HasFiles, IsValid, inode_at, Linked}

abbrev sizes : Params
sizes = record {
  max_inode_count = 3;
  max_block_count = 3;
  max_open_files_count = 2;
  block_size = 88;
}

abbrev inodes : ℕ → Inode
inodes zero = record { i_node_type = t_directory; i_size = 88; i_data_block = pos 0 }
inodes (suc n) = record { i_node_type = t_file; i_size = 2; i_data_block = pos 1 }

-- The root directory is in block 0, and the two bytes of the file are in block 1.
abbrev disk : ℕ → ℕ
disk x =
    if x == 0
    then b'a'
    else if x == 40
    then 1
    else if leb 84 x && ltb x 88
    then 255
    else if x == 88
    then b'h'
    else if x == 89
    then b'i'
    else 0

abbrev two : {A : Type 0} → A → A → ℕ → A
two a b x = if ltb x 2 then a else b

abbrev pub one_file : State
one_file = record {
  fs_params = sizes;
  inode_table = record { allocated = true; size = 3; at = inodes };
  freeinode_ts = record { allocated = true; size = 3; at = two taken free };
  fs_data = record { allocated = true; size = 264; at = disk };
  free_blocks = record { allocated = true; size = 3; at = two taken free };
  open_file_table = record {
    allocated = true;
    size = 2;
    at = λ _. record { of_inumber = pos 1; of_offset = 0 };
  };
  free_open_file_entries = record {
    allocated = true;
    size = 2;
    at = λ h. if h == 0 then taken else free;
  };
  mutex_calls = [];
}

abbrev pub name_a : List ℕ
name_a = b'a' ∷ []

tables : HasTables one_file
tables = record {
  block_size_pos = omega arith;
  inodes_small = omega arith;
  blocks_small = omega arith;
  files_small = omega arith;
  disk_small = omega arith;
  inode_table_size = refl;
  freeinode_ts_size = refl;
  fs_data_size = refl;
  free_blocks_size = refl;
  open_file_table_size = refl;
  free_open_file_entries_size = refl;
}

name_a-IsName : IsName name_a
name_a-IsName = record { string = (ground arith, tt); nonempty = omega arith; short = omega arith }

pub entry_a : Holds disk 0 0 1 name_a
unfolding int_at strcmp_eq int_of_word
entry_a = record { is_name = name_a-IsName; inumber = refl; named = refl }

second-IsEmpty : IsEmpty disk 0 1
unfolding int_at int_of_word
second-IsEmpty = record { inumber = refl; blank = refl }

-- The only entry in use is the first one.
Holds-first : (e n : ℕ) (name : List ℕ) → e < 2 → Holds disk 0 e n name → e ≡ 0
Holds-first zero n name p h = refl
Holds-first (suc zero) n name p h = absurd (not-IsEmpty-Holds second-IsEmpty h)
Holds-first (suc (suc e)) n name p h = omega arith

view : (e : ℕ) → e < 2 → IsEmpty disk 0 e ⊎ Binding disk 0 e
view zero p = inr (1, name_a, entry_a)
view (suc zero) p = inl second-IsEmpty
view (suc (suc e)) p = absurd (omega arith)

directory : IsDirectory disk 0 2
directory = record {
  view = view;
  same_inumber =
      λ e e' n name name' p p' h h'. cc (Holds-first e n name p h, Holds-first e' n name' p' h');
  same_name =
      λ e e' n n' name p p' h h'. cc (Holds-first e n name p h, Holds-first e' n' name p' h');
}

pub file_a : File 0 one_file 1
file_a = record {
  not_root = omega arith;
  small = omega arith;
  fits = omega arith;
  stored = λ _. (1, refl, omega arith, ground arith);
}

taken_one : (n : ℕ) → 0 < n → one_file.freeinode_ts.at n ≡ taken → n ≡ 1
taken_one n q t = ground (arith, t)

owned :
    (n b : ℕ)
    → 0 < n
    → (inode_at one_file n).i_data_block ≡ pos b
    → one_file.free_blocks.at b ≡ taken
owned zero b q e = absurd (omega arith)
owned (suc n) b q e = ground (arith, e)

core : HasFiles 0 one_file
core = record {
  tables = tables;
  some_inode = omega arith;
  root_taken = refl;
  root_directory = refl;
  root_block = refl;
  root_small = omega arith;
  root_block_taken = refl;
  directory = directory;
  files = λ n q small t. rw (taken_one n q t) file_a;
  owned = λ n b t e. owned n b t.not_root e;
  exclusive =
      λ n k t t' e. cc (taken_one n t.not_root t.is_taken, taken_one k t'.not_root t'.is_taken);
  open_files = λ h o. (1, refl, file_a);
}

pub one_file-IsValid : IsValid 0 one_file
one_file-IsValid = record {
  core = core;
  links = λ name n (e, p, h).
      let first = Holds-first e n name p h in
      let i : n ≡ 1 = Holds-inumber (rw first at h) entry_a in
      rw i (omega arith, omega arith, refl);
}

pub handle-IsOpen : IsOpen one_file 0
handle-IsOpen = record { small = omega arith; is_taken = refl }

-- The directory binds the one name to the one file, and nothing else.
pub root-Linked : (name : List ℕ) (n : ℕ) → Linked 0 one_file name n → (name ≡ name_a) × (n ≡ 1)
root-Linked name n (e, p, h) =
    let first = Holds-first e n name p h in
    (Holds-name (rw first at h) entry_a, Holds-inumber (rw first at h) entry_a)
