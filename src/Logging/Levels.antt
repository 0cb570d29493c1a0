-- ===== src/Logging/Levels.antt =====
-- What is printed at which level.
use mathlib.Core.List
use mathlib.Core.List.{Sublist, Sublistᴰ}
use so_ii.Prelude.{
  ℕ, ◌≤◌, ◌≡◌, ◌∙◌, refl, sym, ap, arith, Bool, true, false, List, [], ◌∷◌, ◌++◌, leb, take,
  if◌then◌else◌, Bool-cases, inl, inr,
}
use so_ii.Logging.{
  LogLevel, log_quiet, log_normal, log_verbose, Tag, info_tag, panic_tag, warn_tag, log_tag,
  debug_tag, Line, Logger, Logged, goes_on, exits, set_log_level, put_line, info, panic, warn, log,
  debug, at_start,
}

-- One use of a macro.
pub record Use : Type 0 where
  pub tag : Tag
  pub message : List ℕ

use_macro : Use → Logger → Logged
use_macro u l = elim (u.tag) [
  | info_tag ↦ info u.message l
  | panic_tag ↦ panic u.message l
  | warn_tag ↦ warn u.message l
  | log_tag ↦ log u.message l
  | debug_tag ↦ debug u.message l
]

-- The uses of a program, up to the PANIC that ends it.
pub use_all : List Use → Logger → Logged
unfolding use_macro
use_all [] l = goes_on l
use_all (u ∷ us) l = elim (use_macro u l) [ goes_on l' ↦ use_all us l' | exits l' ↦ exits l' ]

-- The uses that are carried out, those whose tag has at most the rank of the level among them, and
-- their lines.
abbrev pub rank : LogLevel → ℕ
rank log_quiet = 0
rank log_normal = 1
rank log_verbose = 2

abbrev pub threshold : Tag → ℕ
threshold info_tag = 0
threshold panic_tag = 0
threshold warn_tag = 1
threshold log_tag = 1
threshold debug_tag = 2

abbrev is_panic : Tag → Bool
is_panic info_tag = false
is_panic panic_tag = true
is_panic warn_tag = false
is_panic log_tag = false
is_panic debug_tag = false

pub up_to_panic : List Use → List Use
up_to_panic [] = []
up_to_panic (u ∷ us) = let rest = up_to_panic us in u ∷ (if is_panic u.tag then [] else rest)

pub visible : LogLevel → List Use → List Line
visible level [] = []
visible level (u ∷ us) =
    let rest = visible level us in
    if leb (threshold u.tag) (rank level)
    then record { tag = u.tag; buf = take 2047 u.message } ∷ rest
    else rest

pub panics : List Use → Bool
panics [] = false
panics (u ∷ us) = let rest = panics us in if is_panic u.tag then true else rest

-- A run that has printed the lines and ended by PANIC or not.
abbrev pub ended : Bool → LogLevel → List Line → Logged
ended b level lines =
    let l : Logger = record { g_level = level; lines = lines } in if b then exits l else goes_on l

-- The lines of one use.
abbrev line_of : LogLevel → Tag → List ℕ → List Line
line_of level t m =
    if leb (threshold t) (rank level) then record { tag = t; buf = take 2047 m } ∷ [] else []

silent :
    (level : LogLevel) (ls : List Line)
    → goes_on (record { g_level = level; lines = ls })
      ≡ goes_on (record { g_level = level; lines = ls ++ [] })
silent level ls = rw (List.append-nil ls) refl

use_macro_lem :
    (level : LogLevel) (t : Tag) (m : List ℕ) (ls : List Line)
    → use_macro (record { tag = t; message = m }) (record { g_level = level; lines = ls })
      ≡ ended (is_panic t) level (ls ++ line_of level t m)
unfolding use_macro info panic warn log debug put_line
use_macro_lem log_quiet info_tag m ls = refl
use_macro_lem log_normal info_tag m ls = refl
use_macro_lem log_verbose info_tag m ls = refl
use_macro_lem log_quiet panic_tag m ls = refl
use_macro_lem log_normal panic_tag m ls = refl
use_macro_lem log_verbose panic_tag m ls = refl
use_macro_lem log_quiet warn_tag m ls = silent log_quiet ls
use_macro_lem log_normal warn_tag m ls = refl
use_macro_lem log_verbose warn_tag m ls = refl
use_macro_lem log_quiet log_tag m ls = silent log_quiet ls
use_macro_lem log_normal log_tag m ls = refl
use_macro_lem log_verbose log_tag m ls = refl
use_macro_lem log_quiet debug_tag m ls = silent log_quiet ls
use_macro_lem log_normal debug_tag m ls = silent log_normal ls
use_macro_lem log_verbose debug_tag m ls = refl

abbrev go_on : List Use → Logged → Logged
go_on us (goes_on l) = use_all us l
go_on us (exits l) = exits l

head_line :
    (level : LogLevel) (t : Tag) (m : List ℕ) (us : List Use)
    → visible level (record { tag = t; message = m } ∷ us) ≡ line_of level t m ++ visible level us
unfolding visible
head_line level t m us = elim (Bool-cases (leb (threshold t) (rank level))) [
  | inl e ↦ rw e refl
  | inr e ↦ rw e refl
]

module _ (level : LogLevel) (us : List Use) (ls : List Line) (t : Tag) (m : List ℕ) where
  last_line :
      ended true level (ls ++ line_of level t m)
      ≡ ended true level (ls ++ visible level (record { tag = t; message = m } ∷ []))
  unfolding visible
  last_line =
      ap (λ v. ended true level (ls ++ v))
        (sym (head_line level t m [] ∙ List.append-nil (line_of level t m)))

  next_lines :
      (b : Bool) (rest : List Use)
      → ended b level (ls ++ line_of level t m ++ visible level rest)
        ≡ ended b level (ls ++ visible level (record { tag = t; message = m } ∷ rest))
  next_lines b rest = ap (ended b level) (
      List.append_assoc ls (line_of level t m) (visible level rest)
      ∙ ap (λ v. ls ++ v) (sym (head_line level t m rest)))

  carried_on :
      (b : Bool)
      → use_all us (record { g_level = level; lines = ls ++ line_of level t m })
        ≡ ended (panics us) level (ls ++ line_of level t m ++ visible level (up_to_panic us))
      → go_on us (ended b level (ls ++ line_of level t m))
        ≡ ended (if b then true else panics us) level (
            ls
            ++ visible level (record { tag = t; message = m } ∷ (if b then [] else up_to_panic us)))
  carried_on true h = last_line
  carried_on false h = h ∙ next_lines (panics us) (up_to_panic us)

-- What a program prints at a level: the lines of its uses whose tag the level reaches, up to the
-- first PANIC.
pub use_all_lem :
    (level : LogLevel) (us : List Use) (ls : List Line)
    → use_all us (record { g_level = level; lines = ls })
      ≡ ended (panics us) level (ls ++ visible level (up_to_panic us))
unfolding use_all up_to_panic panics visible
use_all_lem level [] ls = silent level ls
use_all_lem level (u ∷ us) ls =
    ap (go_on us) (use_macro_lem level u.tag u.message ls)
    ∙ carried_on level us ls u.tag u.message (is_panic u.tag)
        (use_all_lem level us (ls ++ line_of level u.tag u.message))

visible-Sublist :
    (low high : LogLevel) (us : List Use)
    → rank low ≤ rank high
    → Sublistᴰ (visible low us) (visible high us)
unfolding visible
visible-Sublist low high [] le = Sublistᴰ.slnil
visible-Sublist low high (u ∷ us) le = elim (Bool-cases (leb (threshold u.tag) (rank low))) [
  | inl e ↦
      let e' : leb (threshold u.tag) (rank high) ≡ true = ground (arith, e, le) in
      rw (visible, e, e') (Sublistᴰ.cons-cons refl (visible-Sublist low high us le))
  | inr e ↦ elim (Bool-cases (leb (threshold u.tag) (rank high))) [
    | inl e' ↦ rw (visible, e, e') (Sublistᴰ.cons (visible-Sublist low high us le))
    | inr e' ↦ rw (visible, e, e') (visible-Sublist low high us le)
  ]
]

-- What a program prints that sets the level first and then uses the macros: the lines of the uses
-- whose tag the level reaches, in their order, each cut to 2047 bytes, up to the first PANIC, which
-- ends it at every level. INFO and PANIC are reached by every level, WARN and LOG by LOG_NORMAL,
-- DEBUG by LOG_VERBOSE; at a higher level the same lines are printed, and others between them.
pub logs_by_level :
    (level high : LogLevel) (us : List Use)
    → rank level ≤ rank high
    → (use_all us (set_log_level level at_start)
        ≡ ended (panics us) level (visible level (up_to_panic us)))
      × Sublist (visible level (up_to_panic us)) (visible high (up_to_panic us))
unfolding set_log_level
logs_by_level level high us le =
    (use_all_lem level us [], ∣ visible-Sublist level high (up_to_panic us) le ∣₁)
