-- ===== src/Context/Log.antt =====
-- `context::log_line`: the level that a line names, and the rest of the line.
use libral.Base.{
  ℕ, String, Bool, true, Option, none, some, List, [], ◌∷◌, if◌then◌else◌, Result, ok, throws,
  out_of_range, ◌≡◌, refl,
}
use libral.Base.Text.{istarts_with, substr_from, trim}

pub data Level : Type 0 where
  debug info warning error : Level

-- the map `levels`, in the order of its keys, each with the length of its key plus one
abbrev levels : List (String × Level × ℕ)
levels = ("debug", debug, 6) ∷ ("error", error, 6) ∷ ("info", info, 5) ∷ ("warn", warning, 5) ∷ []

abbrev find_level : List (String × Level × ℕ) → String → Level × ℕ
find_level [] line = (warning, 0)
find_level ((key, level, start) ∷ rest) line =
    if istarts_with line key then (level, start) else find_level rest line

-- What is logged, if anything. `enabled` is `logging::is_enabled`.
unfoldable pub log_line : (Level → Bool) → String → Result (Option (Level × String))
unfolding istarts_with substr_from trim
log_line enabled line =
    let (level, start) = find_level levels line in
    if enabled level
    then elim (substr_from start line) [
      | none ↦ throws out_of_range
      | some rest ↦ ok (some (level, trim rest))
    ]
    else ok none

log_line_level : log_line (λ _. true) "INFO: all is well" ≡ ok (some (info, "all is well"))
unfolding log_line
log_line_level = refl

log_line_default : log_line (λ _. true) "all is well" ≡ ok (some (warning, "all is well"))
unfolding log_line
log_line_default = refl
