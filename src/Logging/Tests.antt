-- ===== src/Logging/Tests.antt =====
-- A run of the macros.
use mathlib.Core.List.{Sublist}
use so_ii.Prelude.{◌≡◌, arith, List, [], ◌∷◌}
use so_ii.Libc.{codes}
use so_ii.Logging.{
  log_quiet, log_normal, info_tag, panic_tag, debug_tag, warn_tag, at_start, set_log_level,
}
use so_ii.Logging.Levels.{Use, use_all, ended, panics, visible, up_to_panic, logs_by_level}

abbrev uses : List Use
uses =
    record { tag = warn_tag; message = codes "slow" }
    ∷ record { tag = info_tag; message = codes "up" }
    ∷ record { tag = debug_tag; message = codes "x" }
    ∷ record { tag = panic_tag; message = codes "down" }
    ∷ record { tag = info_tag; message = codes "never" }
    ∷ []

logs_by_level_example :
    (use_all uses (set_log_level log_quiet at_start)
      ≡ ended (panics uses) log_quiet (visible log_quiet (up_to_panic uses)))
    × Sublist (visible log_quiet (up_to_panic uses)) (visible log_normal (up_to_panic uses))
logs_by_level_example = logs_by_level log_quiet log_normal uses (omega arith)
