-- ===== src/Clients/Manager/Sorting.antt =====
-- manager/manager.c: the order in which boxes are listed. `qsort` of the C library is a parameter.
use mathlib.Core.List.{Perm, Pairwise}
use so_ii.Prelude.{
  ℕ, zero, suc, ◌≡◌, Bool, true, false, List, [], ◌∷◌, ℤ, pos, negsuc, minus_one, ltb, ◌==◌,
  if◌then◌else◌,
}
use so_ii.Clients.Manager.{Entry}

-- The sign of what `strcmp` returns.
unfoldable pub strcmp : List ℕ → List ℕ → ℤ
strcmp [] [] = pos 0
strcmp [] (d ∷ t) = minus_one
strcmp (c ∷ s) [] = pos 1
strcmp (c ∷ s) (d ∷ t) =
    let rest = strcmp s t in if c == d then rest else if ltb c d then minus_one else pos 1

unfoldable pub compare_box_names : Entry → Entry → ℤ
unfolding strcmp
compare_box_names box1 box2 = strcmp box1.box_name box2.box_name

abbrev pub Compare : Type 0
Compare = Entry → Entry → ℤ

abbrev pub Qsort : Type 0
Qsort = Compare → List Entry → List Entry

unfoldable pub sort_boxes : Qsort → List Entry → List Entry
unfolding compare_box_names
sort_boxes qsort list = qsort compare_box_names list

abbrev pub is_positive : ℤ → Bool
is_positive (pos zero) = false
is_positive (pos (suc n)) = true
is_positive (negsuc n) = false

abbrev pub AtMost : Compare → Entry → Entry → Type 0
AtMost compare a b = is_positive (compare a b) ≡ false

-- What the C standard asks of a comparison: that it puts the elements in an order.
pub record IsOrder (compare : Compare) : Type 0 where
  pub total : (a b : Entry) → is_positive (compare a b) ≡ true → AtMost compare b a
  pub trans : (a b c : Entry) → AtMost compare a b → AtMost compare b c → AtMost compare a c

-- What it promises of `qsort` then.
pub record Sorts (qsort : Qsort) : Type 0 where
  pub perm : (compare : Compare) (l : List Entry) → IsOrder compare → Perm (qsort compare l) l
  pub ascending :
      (compare : Compare) (l : List Entry)
      → IsOrder compare
      → Pairwise (AtMost compare) (qsort compare l)

-- Insertion sort.
unfoldable pub insert : Compare → Entry → List Entry → List Entry
insert compare x [] = x ∷ []
insert compare x (y ∷ ys) =
    let rest = insert compare x ys in if is_positive (compare y x) then x ∷ y ∷ ys else y ∷ rest

unfoldable pub insertion_sort : Qsort
unfolding insert
insertion_sort compare [] = []
insertion_sort compare (x ∷ xs) = insert compare x (insertion_sort compare xs)
