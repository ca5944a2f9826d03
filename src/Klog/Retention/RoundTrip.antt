-- ===== src/Klog/Retention/RoundTrip.antt =====
-- A retention that is written as tokens is read as their sum.
use kalua.Prelude.{
  ℕ, zero, suc, ◌+◌, ◌*◌, ◌%◌, ◌≤◌, ◌<◌, ◌≡◌, refl, sym, ◌∙◌, ap, true, false, none, some, List, [],
  ◌∷◌, ◌++◌, arith, All, length, length-append, append-nil, none-ne-some,
}
use kalua.Prelude.Text.{Text, bytes, text_beq, is_empty}
use kalua.Prelude.Ascii.{to_lower, span, span-append, HasNoSpace, trim_space_lem, is_space}
use kalua.Klog.Itoa.{itoa, itoa-IsDigits, length-itoa, digits_value-itoa, is_digit, IsDigits}
use kalua.Klog.Retention.{
  int64_mod, int64_limit, is_alpha, unit_nanos, parse_digits, take_token, retention_loop,
  parse_retention,
}

pub data TimeUnit : Type 0 where
  days hours minutes seconds : TimeUnit

abbrev pub letter : TimeUnit → ℕ
letter days = b'd'
letter hours = b'h'
letter minutes = b'm'
letter seconds = b's'

abbrev pub nanos : TimeUnit → ℕ
nanos days = 86400000000000
nanos hours = 3600000000000
nanos minutes = 60000000000
nanos seconds = 1000000000

-- Tokens such as 2d and 12h, one after the other.
abbrev pub print_tokens : List (ℕ × TimeUnit) → Text
print_tokens [] = []
print_tokens ((n, u) ∷ ts) = itoa n ++ letter u ∷ print_tokens ts

abbrev pub sum_tokens : List (ℕ × TimeUnit) → ℕ
sum_tokens [] = 0
sum_tokens ((n, u) ∷ ts) = n * nanos u + sum_tokens ts

abbrev pub Fits : List (ℕ × TimeUnit) → Type 0
Fits = All (λ t. t.0 < int64_limit)

parse_digits-itoa : (n : ℕ) → n < int64_limit → parse_digits (itoa n) ≡ some n
unfolding parse_digits
parse_digits-itoa n h = rw (digits_value-itoa n, parse_digits) (ground arith)

unit_nanos-letter : (u : TimeUnit) → unit_nanos (to_lower (letter u ∷ [])) ≡ some (nanos u)
unfolding unit_nanos to_lower
unit_nanos-letter days = refl
unit_nanos-letter hours = refl
unit_nanos-letter minutes = refl
unit_nanos-letter seconds = refl

letter-alpha : (u : TimeUnit) → is_alpha (letter u) ≡ true
letter-alpha days = refl
letter-alpha _ = refl

letter-digit : (u : TimeUnit) → is_digit (letter u) ≡ false
letter-digit days = refl
letter-digit _ = refl

-- No unit begins where a number does.
span-digits : (s t : Text) → IsDigits s → 1 ≤ length s → span is_alpha (s ++ t) ≡ ([], s ++ t)
unfolding span
span-digits [] t h l = absurd (omega arith)
span-digits (c ∷ s) t h l = ground (arith, h.0)

span-print_tokens :
    (ts : List (ℕ × TimeUnit)) → span is_alpha (print_tokens ts) ≡ ([], print_tokens ts)
span-print_tokens [] = unfold span in refl
span-print_tokens ((n, u) ∷ ts) =
    span-digits (itoa n) (letter u ∷ print_tokens ts) (itoa-IsDigits n) (length-itoa n)

span-letter :
    (u : TimeUnit) (ts : List (ℕ × TimeUnit))
    → span is_alpha (letter u ∷ print_tokens ts) ≡ (letter u ∷ [], print_tokens ts)
unfolding span
span-letter u ts = ground (arith, letter-alpha u, span-print_tokens ts)

stop : (u : TimeUnit) (t : Text) → span is_digit (letter u ∷ t) ≡ ([], letter u ∷ t)
unfolding span
stop u t = ground (arith, letter-digit u)

span-number :
    (n : ℕ) (u : TimeUnit) (ts : List (ℕ × TimeUnit))
    → span is_digit (print_tokens ((n, u) ∷ ts)) ≡ (itoa n, letter u ∷ print_tokens ts)
span-number n u ts =
    span-append is_digit (itoa n) (letter u ∷ print_tokens ts) (itoa-IsDigits n)
    ∙ ap (λ (r : Text × Text). (itoa n ++ r.0, r.1)) (stop u (print_tokens ts))
    ∙ ap (λ r. (r, letter u ∷ print_tokens ts)) (append-nil (itoa n))

not_empty : (s : Text) → 1 ≤ length s → is_empty s ≡ false
not_empty [] h = absurd (omega arith)
not_empty (c ∷ s) h = refl

take_token-print :
    (n : ℕ) (u : TimeUnit) (ts : List (ℕ × TimeUnit))
    → n < int64_limit
    → take_token (print_tokens ((n, u) ∷ ts)) ≡ some ((n * nanos u) % int64_mod, print_tokens ts)
unfolding take_token
take_token-print n u ts h = ground (
  arith,
  span-number n u ts,
  span-letter u ts,
  parse_digits-itoa n h,
  unit_nanos-letter u,
  not_empty (itoa n) (length-itoa n),
)

no_token : take_token [] ≡ none
unfolding take_token
no_token = refl

retention_loop-step :
    (f total : ℕ) (s : Text) {n : ℕ} {r : Text}
    → take_token s ≡ some (n, r)
    → retention_loop (suc f) total s ≡ retention_loop f ((total + n) % int64_mod) r
unfolding retention_loop
retention_loop-step f total [] e = absurd (none-ne-some (sym no_token ∙ e))
retention_loop-step f total (c ∷ s) e = rw (e, retention_loop)

digit_no_space : (c : ℕ) → is_digit c ≡ true → is_space c ≡ false
digit_no_space c h = ground arith

letter_no_space : (u : TimeUnit) → is_space (letter u) ≡ false
letter_no_space days = refl
letter_no_space _ = refl

retention_loop-print :
    (f total : ℕ) (ts : List (ℕ × TimeUnit))
    → length (print_tokens ts) ≤ f
    → total < int64_mod
    → Fits ts
    → retention_loop f total (print_tokens ts) ≡ some ((total + sum_tokens ts) % int64_mod)
unfolding retention_loop
retention_loop-print zero total [] h b t = ap some (omega arith)
retention_loop-print (suc f) total [] h b t = ap some (omega arith)
retention_loop-print zero total ((n, u) ∷ ts) h b t =
    absurd (omega (arith, length-append (itoa n) (letter u ∷ print_tokens ts)))
retention_loop-print (suc f) total ((n, u) ∷ ts) h b t =
    retention_loop-step f total (print_tokens ((n, u) ∷ ts)) (take_token-print n u ts t.0)
    ∙ retention_loop-print f ((total + (n * nanos u) % int64_mod) % int64_mod) ts
        (omega (arith, length-append (itoa n) (letter u ∷ print_tokens ts))) (omega arith) t.1
    ∙ ap some (omega arith)

digits-HasNoSpace : (s t : Text) → IsDigits s → HasNoSpace t → HasNoSpace (s ++ t)
digits-HasNoSpace [] t h k = k
digits-HasNoSpace (c ∷ s) t h k = (digit_no_space c h.0, digits-HasNoSpace s t h.1 k)

print_tokens-HasNoSpace : (ts : List (ℕ × TimeUnit)) → HasNoSpace (print_tokens ts)
print_tokens-HasNoSpace [] = tt
print_tokens-HasNoSpace ((n, u) ∷ ts) =
    digits-HasNoSpace (itoa n) (letter u ∷ print_tokens ts) (itoa-IsDigits n)
      (letter_no_space u, print_tokens-HasNoSpace ts)

two_bytes : (s : Text) → 2 ≤ length s → text_beq s (bytes "0") ≡ false
two_bytes [] h = absurd (omega arith)
two_bytes (c ∷ []) h = absurd (omega arith)
two_bytes (c ∷ d ∷ s) h = ground arith

-- A retention that is written as one token or more, each a number below 2^63 and a unit, is read as
-- the sum of the tokens in nanoseconds, modulo 2^64.
pub parse_retention-print_tokens :
    (n : ℕ) (u : TimeUnit) (ts : List (ℕ × TimeUnit))
    → Fits ((n, u) ∷ ts)
    → parse_retention (print_tokens ((n, u) ∷ ts)) ≡ some (sum_tokens ((n, u) ∷ ts) % int64_mod)
unfolding parse_retention
parse_retention-print_tokens n u ts h =
    let v = print_tokens ((n, u) ∷ ts) in
    let long : 2 ≤ length v =
      omega (arith, length-append (itoa n) (letter u ∷ print_tokens ts), length-itoa n) in
    ground (
      arith,
      trim_space_lem v (print_tokens-HasNoSpace ((n, u) ∷ ts)),
      two_bytes v long,
      not_empty v (omega (arith, long)),
      retention_loop-print (length v) 0 ((n, u) ∷ ts) (omega arith) (omega arith) h,
    )
