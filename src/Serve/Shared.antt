-- ===== src/Serve/Shared.antt =====
-- internal/server/shared.go: every method holds the mutex, so that each is one step. An int64 is its
-- bit pattern. The properties are in the modules below.
pub mod Counter
pub mod Calls
pub mod Keys
use kalua.Prelude.{
  ℕ, ◌+◌, ◌-◌, ◌%◌, Bool, true, false, ◌&&◌, ◌||◌, Option, none, some, List, [], ◌∷◌, leb, ltb,
  ◌==◌, if◌then◌else◌,
}
use kalua.Prelude.Text.{Text, bytes, text_eq, text_beq, is_empty}
use kalua.Prelude.Dict.{Dict, lookup, insert, remove}
use kalua.Klog.Itoa.{itoa, digits_value}

abbrev pub int64_mod : ℕ
int64_mod = 18446744073709551616

abbrev pub int64_limit : ℕ
int64_limit = 9223372036854775808

pub record SharedState : Type 0 where
  pub entries : Dict Text Text

abbrev pub new_shared_state : SharedState
new_shared_state = record { entries = [] }

unfoldable pub set : SharedState → Text → Text → SharedState
set s key value = record { entries = insert key value s.entries }

abbrev pub or_empty : Option Text → Text
or_empty none = []
or_empty (some v) = v

unfoldable pub get : SharedState → Text → Text
get s key = or_empty (lookup key s.entries)

unfoldable pub del : SharedState → Text → SharedState
del s key = record { entries = remove key s.entries }

-- strconv.ParseInt(s, 10, 64), on the magnitude and then with the sign.
parse_magnitude : Text → Option ℕ
parse_magnitude s = if is_empty s then none else digits_value 0 s

in_range : Bool → Option ℕ → Option ℕ
in_range negative none = none
in_range false (some n) = if ltb n int64_limit then some n else none
in_range true (some n) = if leb n int64_limit then some ((int64_mod - n) % int64_mod) else none

unfoldable pub parse_int : Text → Option ℕ
unfolding parse_magnitude in_range
parse_int [] = none
parse_int (c ∷ s) =
    if c == b'-'
    then in_range true (parse_magnitude s)
    else if c == b'+'
    then in_range false (parse_magnitude s)
    else in_range false (parse_magnitude (c ∷ s))

-- strconv.FormatInt(v, 10)
unfoldable pub format_int : ℕ → Text
format_int v = if ltb v int64_limit then itoa v else b'-' ∷ itoa (int64_mod - v)

-- The number that Incr starts from: 0 if the value is empty or no number.
unfoldable pub value_or_zero : Text → ℕ
unfolding parse_int
value_or_zero v = if is_empty v then 0 else elim (parse_int v) [ none ↦ 0 | some n ↦ n ]

unfoldable pub incr : SharedState → Text → ℕ → SharedState × ℕ
unfolding value_or_zero set get
incr s key delta =
    let val = (value_or_zero (get s key) + delta) % int64_mod in (set s key (format_int val), val)

-- `len(key) >= len(prefix) && key[:len(prefix)] == prefix`
abbrev pub has_prefix : Text → Text → Bool
has_prefix key [] = true
has_prefix [] (p ∷ ps) = false
has_prefix (k ∷ ks) (p ∷ ps) = k == p && has_prefix ks ps

-- The pattern without a star at its end, if it has one.
unfoldable pub star_prefix : Text → Option Text
star_prefix [] = none
star_prefix (c ∷ []) = if c == b'*' then some [] else none
star_prefix (c ∷ d ∷ s) = elim (star_prefix (d ∷ s)) [ none ↦ none | some p ↦ some (c ∷ p) ]

unfoldable pub match_prefix : Text → Text → Bool
unfolding star_prefix
match_prefix key pattern_ = elim (star_prefix pattern_) [
  | none ↦ text_beq key pattern_
  | some p ↦ has_prefix key p
]

-- Keys; the order of a range over the map is not specified.
unfoldable pub keys_of : Dict Text Text → Text → List Text
unfolding match_prefix
keys_of [] pattern_ = []
keys_of ((k, v) ∷ m) pattern_ =
    let rest = keys_of m pattern_ in
    if text_beq pattern_ (bytes "*") || (is_empty pattern_ || match_prefix k pattern_)
    then k ∷ rest
    else rest

unfoldable pub keys : SharedState → Text → List Text
unfolding keys_of
keys s pattern_ = keys_of s.entries pattern_
