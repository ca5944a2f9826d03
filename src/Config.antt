-- ===== src/Config.antt =====
-- internal/config/config.go: the INI parser and the lookups, on ASCII text. A map of maps is a Dict of
-- Dicts; a section that is absent is a nil map, in which every lookup finds nothing.
pub mod Line
pub mod Trim
pub mod Store
pub mod Parse
pub mod RoundTrip
pub mod Flags
pub mod Precedence
pub mod Failure
pub mod Comment
mod Tests
use kalua.Prelude.{
  ℕ, ◌+◌, ◌-◌, Bool, true, false, not, ◌&&◌, ◌||◌, Option, none, some, List, [], ◌∷◌, ◌++◌, ◌==◌,
  take, drop, length, if◌then◌else◌,
}
use kalua.Prelude.Text.{Text, bytes, text_eq, text_beq, is_empty}
use kalua.Prelude.Dict.{Dict, lookup, insert}
use kalua.Prelude.Ascii.{trim_space, to_lower, span}

-- The section names of `order` are as they are written; those of `sections` are normalized.
pub record File : Type 0 where
  pub sections : Dict Text (Dict Text (List Text))
  pub order : List Text

abbrev pub new : File
new = record { sections = []; order = [] }

-- strings.ReplaceAll(s, c, "") for a byte c
unfoldable pub without : ℕ → Text → Text
without c [] = []
without c (d ∷ s) = let rest = without c s in if d == c then rest else d ∷ rest

unfoldable pub norm : Text → Text
unfolding without
norm s = without b'_' (without b'-' (to_lower (trim_space s)))

unfoldable pub strip_bom : Text → Text
strip_bom [] = []
strip_bom (a ∷ []) = a ∷ []
strip_bom (a ∷ b ∷ []) = a ∷ b ∷ []
strip_bom (a ∷ b ∷ c ∷ s) = if a == 239 && (b == 187 && c == 191) then s else a ∷ b ∷ c ∷ s

cons_head : ℕ → List Text → List Text
cons_head c [] = (c ∷ []) ∷ []
cons_head c (l ∷ ls) = (c ∷ l) ∷ ls

-- strings.Split(s, "\n")
unfoldable pub split_lines : Text → List Text
unfolding cons_head
split_lines [] = [] ∷ []
split_lines (c ∷ s) = let rest = split_lines s in if c == 10 then [] ∷ rest else cons_head c rest

abbrev pub begins : ℕ → Text → Bool
begins c [] = false
begins c (d ∷ s) = d == c

abbrev pub ends : ℕ → Text → Bool
ends c [] = false
ends c (d ∷ []) = d == c
ends c (d ∷ e ∷ s) = ends c (e ∷ s)

abbrev pub or_nil {ℓ} : {A : Type ℓ} → Option (List A) → List A
or_nil none = []
or_nil (some xs) = xs

abbrev pub is_other : ℕ → Bool
is_other c = not (c == b'=')

-- The key and the value of a line, of what stands before its first equals sign and the rest.
key_value_at : Text → Text × Text → Text × Text
unfolding trim_space
key_value_at line (before, []) = (line, bytes "true")
key_value_at line (before, eq ∷ rest) = (trim_space before, trim_space rest)

unfoldable pub key_value : Text → Text × Text
unfolding key_value_at span
key_value line = key_value_at line (span is_other line)

-- A value appended to a key of a section, which is made if it is absent.
unfoldable pub add_value : File → Text → Text → Text → File
unfolding norm
add_value f current k v =
    let sec = or_nil (lookup (norm current) f.sections) in
    let sec' = insert (norm k) (or_nil (lookup (norm k) sec) ++ (v ∷ [])) sec in
    record { sections = insert (norm current) sec' f.sections; order = f.order }

-- A section, made if it is absent.
unfoldable pub open_section : File → Text → File
unfolding norm
open_section f current = elim (lookup (norm current) f.sections) [
  | none ↦ record {
    sections = insert (norm current) [] f.sections;
    order = f.order ++ (current ∷ []);
  }
  | some sec ↦ f
]

-- One round of the loop after the trim, on the file and the current section.
unfoldable pub parse_trimmed : File × Text → Text → File × Text
unfolding trim_space key_value add_value open_section
parse_trimmed (f, current) line =
    if is_empty line || (begins b';' line || begins b'#' line)
    then (f, current)
    else if begins b'[' line && ends b']' line
    then (let name = trim_space (take (length line - 2) (drop 1 line)) in
        (open_section f name, name))
    else (let kv = key_value line in
        if is_empty kv.0 then (f, current) else (add_value f current kv.0 kv.1, current))

unfoldable pub parse_line : File × Text → Text → File × Text
unfolding trim_space parse_trimmed
parse_line st raw = parse_trimmed st (trim_space raw)

unfoldable pub parse_lines : File × Text → List Text → File × Text
unfolding parse_line
parse_lines st [] = st
parse_lines st (raw ∷ rest) = parse_lines (parse_line st raw) rest

unfoldable pub parse : Text → File
unfolding parse_lines strip_bom split_lines
parse text = (parse_lines (new, []) (split_lines (strip_bom text))).0

unfoldable pub values : File → Text → Text → List Text
unfolding norm
values f section key = or_nil (lookup (norm key) (or_nil (lookup (norm section) f.sections)))

last_of : List Text → Option Text
last_of [] = none
last_of (v ∷ []) = some v
last_of (v ∷ w ∷ vs) = last_of (w ∷ vs)

-- Get: the last value.
unfoldable pub get : File → Text → Text → Option Text
unfolding values last_of
get f section key = last_of (values f section key)

unfoldable pub get_any : File → Text → List Text → Option Text
unfolding get
get_any f section [] = none
get_any f section (k ∷ keys) =
    let rest = get_any f section keys in elim (get f section k) [ none ↦ rest | some v ↦ some v ]

unfoldable pub truthy : Text → Bool
unfolding to_lower trim_space
truthy v =
    let s = to_lower (trim_space v) in
    text_beq s (bytes "1")
    || (text_beq s (bytes "true")
        || (text_beq s (bytes "t")
            || (text_beq s (bytes "yes") || (text_beq s (bytes "y") || text_beq s (bytes "on")))))

-- FindPath; the environment variable and the test of the default file are given.
unfoldable pub find_path : Text → Text → Bool → Text
unfolding trim_space
find_path ini_flag env exists =
    let p = trim_space ini_flag in
    let q = trim_space env in
    if not (is_empty p)
    then p
    else if not (is_empty q)
    then q
    else if exists
    then bytes "KALUA.INI"
    else []
