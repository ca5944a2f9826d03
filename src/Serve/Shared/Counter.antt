-- ===== src/Serve/Shared/Counter.antt =====
-- Counters in the shared store.
use kalua.Prelude.{
  ℕ, ◌+◌, ◌-◌, ◌%◌, ◌≤◌, ◌<◌, ◌≡◌, refl, ◌∙◌, ap, none, some, [], ◌∷◌, ltb, length, arith,
  Bool-cases, none-ne-some, if◌then◌else◌, inl, inr,
}
use kalua.Prelude.Text.{Text, text_eq, text_beq, text_beq_iff}
use kalua.Prelude.Dict.{lookup-insert, lookup-remove}
use kalua.Klog.Itoa.{itoa, digits_value, digits_value-itoa, itoa-IsDigits, length-itoa, IsDigits}
use kalua.Serve.Shared.{
  int64_mod, int64_limit, SharedState, set, get, del, parse_int, format_int, value_or_zero, incr,
}

parse_int-digits :
    (s : Text) (n : ℕ)
    → IsDigits s
    → 1 ≤ length s
    → digits_value 0 s ≡ some n
    → n < int64_limit
    → parse_int s ≡ some n
unfolding parse_int
parse_int-digits [] n d l e h = absurd (omega arith)
parse_int-digits (c ∷ s) n d l e h = ground (arith, d.0, e)

parse_int-minus :
    (s : Text) (n : ℕ)
    → 1 ≤ length s
    → digits_value 0 s ≡ some n
    → n ≤ int64_limit
    → parse_int (b'-' ∷ s) ≡ some ((int64_mod - n) % int64_mod)
unfolding parse_int
parse_int-minus [] n l e h = absurd (omega arith)
parse_int-minus (c ∷ s) n l e h = ground (arith, e)

-- Every int64 that is printed is read as itself.
pub parse_int-format_int : (v : ℕ) → v < int64_mod → parse_int (format_int v) ≡ some v
unfolding format_int
parse_int-format_int v h = elim (Bool-cases (ltb v int64_limit)) [
  | inl p ↦ rw p (
      parse_int-digits (itoa v) v (itoa-IsDigits v) (length-itoa v) (digits_value-itoa v)
        (ground arith))
  | inr p ↦ rw p (
      parse_int-minus (itoa (int64_mod - v)) (int64_mod - v) (length-itoa (int64_mod - v))
        (digits_value-itoa (int64_mod - v)) (ground arith)
      ∙ ap some (ground arith))
]

-- get after set: the key that was set has the value, every other key has what it had.
pub get-set :
    (s : SharedState) (j k v : Text) → get (set s j v) k ≡ (if text_beq j k then v else get s k)
unfolding get set
get-set s j k v = rw (lookup-insert j k v s.entries) (ground arith)

pub get-del :
    (s : SharedState) (j k : Text) → get (del s j) k ≡ (if text_beq j k then [] else get s k)
unfolding get del
get-del s j k = rw (lookup-remove j k s.entries) (ground arith)

value_or_zero-parse_int : (t : Text) (v : ℕ) → parse_int t ≡ some v → value_or_zero t ≡ v
unfolding value_or_zero parse_int
value_or_zero-parse_int [] v e = absurd (none-ne-some e)
value_or_zero-parse_int (c ∷ t) v e = rw e refl

abbrev pub value_of : SharedState → Text → ℕ
value_of s k = value_or_zero (get s k)

value_of-set :
    (s : SharedState) (j k : Text) (v : ℕ)
    → v < int64_mod
    → value_of (set s j (format_int v)) k ≡ (if text_beq j k then v else value_of s k)
value_of-set s j k v h = elim (Bool-cases (text_beq j k)) [
  | inl p ↦
      rw (get-set s j k (format_int v), p)
        (value_or_zero-parse_int (format_int v) v (parse_int-format_int v h))
  | inr p ↦ rw (get-set s j k (format_int v), p) refl
]

-- An increment returns the number that its key then holds, and every other key holds what it held.
pub incr-value_of :
    (s : SharedState) (j k : Text) (d : ℕ)
    → value_of (incr s j d).0 k
      ≡ (if text_beq j k then (value_of s j + d) % int64_mod else value_of s k)
unfolding incr
incr-value_of s j k d = value_of-set s j k ((value_of s j + d) % int64_mod) (omega arith)

zero-parse_int : (t : Text) → parse_int t ≡ none → value_or_zero t ≡ 0
unfolding value_or_zero
zero-parse_int [] e = refl
zero-parse_int (c ∷ t) e = rw e refl

-- An increment of a key that is missing, or whose value is no int64 in decimal, starts from 0: it
-- returns the increment and stores it, and does not return 0.
pub incr_fresh :
    (s : SharedState) (k : Text) (d : ℕ)
    → parse_int (get s k) ≡ none
    → d < int64_mod
    → ((incr s k d).1 ≡ d) × (get (incr s k d).0 k ≡ format_int d)
unfolding incr
incr_fresh s k d e h =
    let z : (value_or_zero (get s k) + d) % int64_mod ≡ d =
      rw (zero-parse_int (get s k) e) (omega arith) in
    (z, rw (z, get-set s k k (format_int d), (text_beq_iff k k).1 refl) refl)
