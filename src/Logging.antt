-- ===== src/Logging.antt =====
-- utils/logging.h and utils/logging.c: the level and the five macros.
pub mod Levels
mod Tests
use so_ii.Prelude.{ℕ, Bool, true, false, ◌||◌, List, [], ◌∷◌, ◌++◌, take, if◌then◌else◌}

pub data LogLevel : Type 0 where
  log_quiet log_normal log_verbose : LogLevel

pub data Tag : Type 0 where
  info_tag panic_tag warn_tag log_tag debug_tag : Tag

-- A line on the standard error, without the place in the source that it begins with.
pub record Line : Type 0 where
  pub tag : Tag
  pub buf : List ℕ

pub record Logger : Type 0 where
  pub g_level : LogLevel
  pub lines : List Line

-- PANIC ends the program.
pub data Logged : Type 0 where
  goes_on exits : Logger → Logged

abbrev pub at_start : Logger
at_start = record { g_level = log_quiet; lines = [] }

unfoldable pub set_log_level : LogLevel → Logger → Logger
set_log_level level l = record l { g_level = level }

-- `snprintf(buf, 2048, ...)` of a formatted message, and the `fprintf` of it.
unfoldable pub put_line : Tag → (message : List ℕ) → Logger → Logger
put_line tag message l = record l {
  lines = l.lines ++ (record { tag = tag; buf = take 2047 message } ∷ []);
}

abbrev is_normal : LogLevel → Bool
is_normal log_quiet = false
is_normal log_normal = true
is_normal log_verbose = false

abbrev is_verbose : LogLevel → Bool
is_verbose log_quiet = false
is_verbose log_normal = false
is_verbose log_verbose = true

unfoldable pub info : (message : List ℕ) → Logger → Logged
unfolding put_line
info message l = goes_on (put_line info_tag message l)

unfoldable pub panic : (message : List ℕ) → Logger → Logged
unfolding put_line
panic message l = exits (put_line panic_tag message l)

unfoldable pub warn : (message : List ℕ) → Logger → Logged
unfolding put_line
warn message l =
    if is_normal l.g_level || is_verbose l.g_level
    then goes_on (put_line warn_tag message l)
    else goes_on l

unfoldable pub log : (message : List ℕ) → Logger → Logged
unfolding put_line
log message l =
    if is_normal l.g_level || is_verbose l.g_level
    then goes_on (put_line log_tag message l)
    else goes_on l

unfoldable pub debug : (message : List ℕ) → Logger → Logged
unfolding put_line
debug message l = if is_verbose l.g_level then goes_on (put_line debug_tag message l) else goes_on l
