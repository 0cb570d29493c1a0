-- ===== src/Clients/Manager/Order.antt =====
-- The order of the boxes by name, and that it is the same for every `qsort`.
use mathlib.Core.List.{
  Mem, Perm, Pairwise, Pairwise-singleton, forall_mem-cons, mem-cons_self, mem-cons_of_mem,
}
use mathlib.Core.List.Perm
use mathlib.Core.List.Pairwise
use mathlib.Core.Path.{ap₂}
use so_ii.Prelude.{ℕ, ◌<◌, ◌≡◌, refl, sym, arith, true, false, List, [], ◌∷◌, Bool-cases, inl, inr}
use native.Mathlib.Decide.{ℕ_discrete}
use so_ii.Clients.Manager.{Entry}
use so_ii.Clients.Manager.Sorting.{
  strcmp, compare_box_names, Compare, Qsort, sort_boxes, is_positive, AtMost, IsOrder, Sorts,
  insert, insertion_sort,
}

strcmp_total : (s t : List ℕ) → is_positive (strcmp s t) ≡ true → is_positive (strcmp t s) ≡ false
unfolding strcmp
strcmp_total [] [] h = refl
strcmp_total [] (d ∷ t) h = cc
strcmp_total (c ∷ s) [] h = refl
strcmp_total (c ∷ s) (d ∷ t) h = ground (arith, strcmp_total s t)

strcmp_trans :
    (s t u : List ℕ)
    → is_positive (strcmp s t) ≡ false
    → is_positive (strcmp t u) ≡ false
    → is_positive (strcmp s u) ≡ false
unfolding strcmp
strcmp_trans [] t [] h k = refl
strcmp_trans [] t (e ∷ u) h k = refl
strcmp_trans (c ∷ s) [] u h k = cc
strcmp_trans (c ∷ s) (d ∷ t) [] h k = cc
strcmp_trans (c ∷ s) (d ∷ t) (e ∷ u) h k = ground (arith, strcmp_trans s t u)

strcmp_antisymm :
    (s t : List ℕ) → is_positive (strcmp s t) ≡ false → is_positive (strcmp t s) ≡ false → s ≡ t
unfolding strcmp
strcmp_antisymm [] [] h k = refl
strcmp_antisymm [] (d ∷ t) h k = cc
strcmp_antisymm (c ∷ s) [] h k = cc
strcmp_antisymm (c ∷ s) (d ∷ t) h k = elim (ℕ_discrete c d) [
  | yes e ↦ ap₂ ◌∷◌ e (strcmp_antisymm s t (ground (arith, h, e)) (ground (arith, k, e)))
  | no other ↦ absurd (ground (arith, h, k, other))
]

pub compare_box_names-IsOrder : IsOrder compare_box_names
unfolding compare_box_names
compare_box_names-IsOrder = record {
  total = λ a b. strcmp_total a.box_name b.box_name;
  trans = λ a b c. strcmp_trans a.box_name b.box_name c.box_name;
}

module _ {compare : Compare} (o : IsOrder compare) where
  AtMost-prop : (a b : Entry) → IsProp (AtMost compare a b)
  AtMost-prop a b = hlevel

  AtMost-refl : (a : Entry) → AtMost compare a a
  AtMost-refl a = elim (Bool-cases (is_positive (compare a a))) [
    | inl e ↦ o.total a a e
    | inr e ↦ e
  ]

  abbrev IsBelow : Entry → List Entry → Type 0
  IsBelow a l = (x : Entry) → Mem x l → AtMost compare a x

  IsBelow-cons :
      (a b : Entry) {l : List Entry} → AtMost compare a b → IsBelow a l → IsBelow a (b ∷ l)
  IsBelow-cons a b p h = (forall_mem-cons (AtMost-prop a)).1 (p, h)

  -- What comes before the first of ascending boxes comes before all of them.
  IsBelow-head :
      (a b : Entry) {l : List Entry}
      → AtMost compare a b
      → Pairwise (AtMost compare) (b ∷ l)
      → IsBelow a (b ∷ l)
  IsBelow-head a b p (Pairwise.cons h _) = IsBelow-cons a b p λ x m. o.trans a b x p (h x m)

  insert-perm : (x : Entry) (l : List Entry) → Perm (insert compare x l) (x ∷ l)
  unfolding insert
  insert-perm x [] = Perm.rfl
  insert-perm x (y ∷ ys) = elim (Bool-cases (is_positive (compare y x))) [
    | inl e ↦ rw (insert, e) Perm.rfl
    | inr e ↦ rw (insert, e) (Perm.trans (Perm.cons y (insert-perm x ys)) (Perm.swap x y ys))
  ]

  insert-ascending :
      (x : Entry) {l : List Entry}
      → Pairwise (AtMost compare) l
      → Pairwise (AtMost compare) (insert compare x l)
  unfolding insert
  insert-ascending x Pairwise.nil = Pairwise-singleton _ x
  insert-ascending x (Pairwise.cons {a = y} {l = ys} below s) =
      elim (Bool-cases (is_positive (compare y x))) [
        | inl e ↦
            let whole = Pairwise.cons below s in
            rw (insert, e) (Pairwise.cons (IsBelow-head x y (o.total y x e) whole) whole)
        | inr e ↦
            rw (insert, e)
              (Pairwise.cons
                (λ z m. IsBelow-cons y x e below z ((Perm.mem_iff (insert-perm x ys)).0 m))
                (insert-ascending x s))
      ]

  insertion_sort-perm : (l : List Entry) → Perm (insertion_sort compare l) l
  unfolding insertion_sort
  insertion_sort-perm [] = Perm.rfl
  insertion_sort-perm (x ∷ xs) =
      Perm.trans (insert-perm x (insertion_sort compare xs)) (Perm.cons x (insertion_sort-perm xs))

  insertion_sort-ascending : (l : List Entry) → Pairwise (AtMost compare) (insertion_sort compare l)
  unfolding insertion_sort
  insertion_sort-ascending [] = Pairwise.nil
  insertion_sort-ascending (x ∷ xs) = insert-ascending x (insertion_sort-ascending xs)

pub insertion_sort-Sorts : Sorts insertion_sort
insertion_sort-Sorts = record {
  perm = λ compare l o. insertion_sort-perm o l;
  ascending = λ compare l o. insertion_sort-ascending o l;
}

-- The order of names by their first different byte, where a name comes before its extensions.
pub data NotAfter : List ℕ → List ℕ → Type 0 where
  ended : {t : List ℕ} → NotAfter [] t
  smaller : {c d : ℕ} {s t : List ℕ} → c < d → NotAfter (c ∷ s) (d ∷ t)
  same : {c : ℕ} {s t : List ℕ} → NotAfter s t → NotAfter (c ∷ s) (c ∷ t)

strcmp-NotAfter : (s t : List ℕ) → is_positive (strcmp s t) ≡ false → NotAfter s t
unfolding strcmp
strcmp-NotAfter [] t h = NotAfter.ended
strcmp-NotAfter (c ∷ s) [] h = cc
strcmp-NotAfter (c ∷ s) (d ∷ t) h = elim (ℕ_discrete c d) [
  | yes e ↦ rw (sym e) (NotAfter.same (strcmp-NotAfter s t (ground (arith, h, e))))
  | no other ↦ NotAfter.smaller (ground (arith, h, other))
]

-- The name of the box `a` does not come after that of `b`.
abbrev pub NamesInOrder : Entry → Entry → Type 0
NamesInOrder a b = NotAfter a.box_name b.box_name

AtMost-NamesInOrder : (a b : Entry) → AtMost compare_box_names a b → NamesInOrder a b
unfolding compare_box_names
AtMost-NamesInOrder a b = strcmp-NotAfter a.box_name b.box_name

-- Boxes of the list with one name are one box.
abbrev pub DistinctNames : List Entry → Type 0
DistinctNames l = (x y : Entry) → Mem x l → Mem y l → x.box_name ≡ y.box_name → x ≡ y

same_names :
    (x y : Entry)
    → AtMost compare_box_names x y
    → AtMost compare_box_names y x
    → x.box_name ≡ y.box_name
unfolding compare_box_names
same_names x y = strcmp_antisymm x.box_name y.box_name

first_below :
    (a b : Entry) {l r : List Entry}
    → Pairwise (AtMost compare_box_names) (a ∷ l)
    → Perm (b ∷ r) (a ∷ l)
    → AtMost compare_box_names a b
first_below a b s p =
    IsBelow-head compare_box_names-IsOrder a a (AtMost-refl compare_box_names-IsOrder a) s b
      ((Perm.mem_iff p).0 mem-cons_self)

-- Boxes with distinct names are put in order in one way only.
ascending_unique :
    (l r : List Entry)
    → DistinctNames l
    → Pairwise (AtMost compare_box_names) l
    → Pairwise (AtMost compare_box_names) r
    → Perm l r
    → l ≡ r
ascending_unique [] r names sl sr p = Perm.nil-eq p
ascending_unique (a ∷ l) [] names sl sr p = Perm.eq-nil p
ascending_unique (a ∷ l) (b ∷ r) names sl sr p =
    let b_in : Mem b (a ∷ l) = (Perm.mem_iff (Perm.symm p)).0 mem-cons_self in
    let heads : a ≡ b =
      names a b mem-cons_self b_in
        (same_names a b (first_below a b sl (Perm.symm p)) (first_below b a sr p)) in
    let tails = Perm.cons_inv (Perm.trans p (Perm.cons' (sym heads) Perm.rfl)) in
    ap₂ ◌∷◌ heads (
      ascending_unique l r (λ x y m m' e. names x y (mem-cons_of_mem a m) (mem-cons_of_mem a m') e)
        (Pairwise.of_cons sl) (Pairwise.of_cons sr) tails)

-- Whatever algorithm `qsort` has, `sort_boxes` rearranges the boxes so that no name comes after a later
-- one, by the first byte in which they differ, and the list is the one that insertion sort gives. No two boxes of the list have one name, and `qsort`
-- sorts by every comparison that is an order.
pub sort_boxes-insertion_sort :
    (qsort : Qsort) (l : List Entry)
    → Sorts qsort
    → DistinctNames l
    → Perm (sort_boxes qsort l) l
      × Pairwise NamesInOrder (sort_boxes qsort l)
      × (sort_boxes qsort l ≡ insertion_sort compare_box_names l)
unfolding sort_boxes
sort_boxes-insertion_sort qsort l sorts names =
    let o = compare_box_names-IsOrder in
    let perm = sorts.perm compare_box_names l o in
    let ascends = sorts.ascending compare_box_names l o in
    (
      perm,
      Pairwise.imp AtMost-NamesInOrder ascends,
      ascending_unique (qsort compare_box_names l) (insertion_sort compare_box_names l)
          (λ x y m m' e. names x y ((Perm.mem_iff perm).0 m) ((Perm.mem_iff perm).0 m') e) ascends
          (insertion_sort-ascending o l) (Perm.trans perm (Perm.symm (insertion_sort-perm o l))),
    )
