-- ===== src/Klog/Retention.antt =====
-- ParseRetention of internal/klog/size.go, on ASCII text. A time.Duration is an int64 of nanoseconds,
-- given as its bit pattern.
pub mod RoundTrip
use kalua.Prelude.{
  ℕ, zero, suc, ◌+◌, ◌-◌, ◌*◌, ◌%◌, ◌≤◌, ◌<◌, ◌≡◌, refl, sym, ◌∙◌, ap, Bool, true, false, ◌&&◌,
  ◌||◌, Option, none, some, List, [], ◌∷◌, ◌++◌, arith, All, length, length-append, leb, ltb, ◌==◌,
  if◌then◌else◌, append_assoc,
}
use kalua.Prelude.Text.{Text, bytes, text_beq, is_empty}
use kalua.Prelude.Ascii.{
  trim_space, to_lower, span, span-append, length-span, Holds, HasNoSpace, trim_space_lem,
}
use kalua.Klog.Itoa.{
  itoa, itoa-IsDigits, length-itoa, digits_value, digits_value-itoa, is_digit, IsDigits,
}

abbrev pub int64_mod : ℕ
int64_mod = 18446744073709551616

abbrev pub int64_limit : ℕ
int64_limit = 9223372036854775808

-- isAlpha
abbrev pub is_alpha : ℕ → Bool
is_alpha c = leb 97 c && leb c 122 || leb 65 c && leb c 90

-- The switch on the unit: its nanoseconds.
unfoldable pub unit_nanos : Text → Option ℕ
unit_nanos unit =
    if text_beq unit [] || text_beq unit (bytes "d")
    then some 86400000000000
    else if text_beq unit (bytes "h")
    then some 3600000000000
    else if text_beq unit (bytes "m")
    then some 60000000000
    else if text_beq unit (bytes "s")
    then some 1000000000
    else none

-- strconv.ParseInt(s, 10, 64) of a text of digits.
unfoldable pub parse_digits : Text → Option ℕ
unfolding digits_value
parse_digits s = elim (digits_value 0 s) [
  | none ↦ none
  | some n ↦ if ltb n int64_limit then some n else none
]

-- One round of the loop: the token at the front, its nanoseconds and the rest.
unfoldable pub take_token : Text → Option (ℕ × Text)
unfolding unit_nanos parse_digits span to_lower
take_token rest =
    let (number, after) = span is_digit rest in
    let (unit, rest') = span is_alpha after in
    if is_empty number then none else elim (parse_digits number) [
      | none ↦ none
      | some n ↦ elim (unit_nanos (to_lower unit)) [
        | none ↦ none
        | some mult ↦ some ((n * mult) % int64_mod, rest')
      ]
    ]

-- The loop; every round takes a byte off the text, so its length is enough fuel.
unfoldable pub retention_loop : ℕ → ℕ → Text → Option ℕ
unfolding take_token
retention_loop zero total [] = some total
retention_loop zero total (c ∷ rest) = none
retention_loop (suc f) total [] = some total
retention_loop (suc f) total (c ∷ rest) = elim (take_token (c ∷ rest)) [
  | none ↦ none
  | some (n, rest') ↦ retention_loop f ((total + n) % int64_mod) rest'
]

unfoldable pub parse_retention : Text → Option ℕ
unfolding retention_loop trim_space
parse_retention s =
    let v = trim_space s in
    if is_empty v
    then none
    else if text_beq v (bytes "0")
    then some 0
    else retention_loop (length v) 0 v
