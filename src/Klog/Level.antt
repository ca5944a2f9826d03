-- ===== src/Klog/Level.antt =====
-- Severity levels: Level, ValidLevel, ParseLevel and String of internal/klog/klog.go.
use kalua.Prelude.{
  ℕ, zero, suc, ◌≡◌, refl, Bool, false, ◌||◌, Option, none, some, arith, if◌then◌else◌, leb,
}
use kalua.Prelude.Int.{ℤ, pos, negsuc}
use kalua.Prelude.Text.{Text, bytes, text_eq, text_beq}

-- `type Level int`, with LevelError as 0 to LevelTrace as 4.
abbrev pub Level : Type 0
Level = ℤ

unfoldable pub valid_level : Level → Bool
valid_level (pos n) = leb n 4
valid_level (negsuc n) = false

-- ParseLevel; an error is `none`.
unfoldable pub parse_level : Text → Option Level
parse_level s =
    if text_beq s (bytes "error") || text_beq s (bytes "ERROR")
    then some (pos 0)
    else if text_beq s (bytes "warn")
        || (text_beq s (bytes "warning")
            || (text_beq s (bytes "WARN") || text_beq s (bytes "WARNING")))
    then some (pos 1)
    else if text_beq s (bytes "info") || text_beq s (bytes "INFO")
    then some (pos 2)
    else if text_beq s (bytes "debug") || text_beq s (bytes "DEBUG")
    then some (pos 3)
    else if text_beq s (bytes "trace") || text_beq s (bytes "TRACE")
    then some (pos 4)
    else none

-- String, on the number of a level that is not negative.
level_name : ℕ → Text
level_name zero = bytes "error"
level_name (suc zero) = bytes "warn"
level_name (suc (suc zero)) = bytes "info"
level_name (suc (suc (suc zero))) = bytes "debug"
level_name (suc (suc (suc (suc zero)))) = bytes "trace"
level_name _ = bytes "unknown"

unfoldable pub level_string : Level → Text
unfolding level_name
level_string (pos n) = level_name n
level_string (negsuc n) = bytes "unknown"

parse_level-level_name :
    (n : ℕ) → parse_level (level_name n) ≡ (if leb n 4 then some (pos n) else none)
unfolding parse_level level_name
parse_level-level_name zero = refl
parse_level-level_name (suc zero) = refl
parse_level-level_name (suc (suc zero)) = refl
parse_level-level_name (suc (suc (suc zero))) = refl
parse_level-level_name (suc (suc (suc (suc zero)))) = refl
parse_level-level_name (suc (suc (suc (suc (suc n))))) = ground arith

-- A level is valid exactly when its printed name parses, and then the name parses to the level.
pub parse_level-level_string :
    (l : Level) → parse_level (level_string l) ≡ (if valid_level l then some l else none)
unfolding level_string valid_level
parse_level-level_string (pos n) = parse_level-level_name n
parse_level-level_string (negsuc n) = unfold parse_level in refl
