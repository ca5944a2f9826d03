-- ===== src/Klog/Itoa.antt =====
-- Decimal numbers: itoa of internal/klog/klog.go on lengths, which are not negative, and the reading
-- of digits that strconv.ParseInt does.
use kalua.Prelude.{
  ℕ, zero, suc, ◌+◌, ◌-◌, ◌*◌, ◌/◌, ◌%◌, ◌≤◌, ◌≡◌, refl, ◌∙◌, ap, inl, inr, Bool, true, false, ◌&&◌,
  Option, none, some, [], ◌∷◌, arith, All, length, leb, ◌==◌, Bool-cases, if◌then◌else◌,
}
use kalua.Prelude.Text.{Text}

-- `for n > 0 { i--; buf[i] = '0' + n%10; n /= 10 }`: the buffer grows to the front. Each round needs
-- one unit of fuel.
unfoldable pub itoa_loop : ℕ → ℕ → Text → Text
itoa_loop zero n buf = buf
itoa_loop (suc f) n buf = elim (n == 0) [
  | true ↦ buf
  | false ↦ itoa_loop f (n / 10) ((48 + n % 10) ∷ buf)
]

unfoldable pub itoa : ℕ → Text
unfolding itoa_loop
itoa n = if n == 0 then 48 ∷ [] else itoa_loop n n []

abbrev pub is_digit : ℕ → Bool
is_digit c = leb 48 c && leb c 57

-- The value of a run of digits.
unfoldable pub digits_value : ℕ → Text → Option ℕ
digits_value acc [] = some acc
digits_value acc (c ∷ s) =
    let rest = digits_value (acc * 10 + (c - 48)) s in if is_digit c then rest else none

digit_of : (n : ℕ) → is_digit (48 + n % 10) ≡ true
digit_of n = ground arith

digits_value-itoa_loop :
    (f n : ℕ) (buf : Text) → n ≤ f → digits_value 0 (itoa_loop f n buf) ≡ digits_value n buf
unfolding itoa_loop
digits_value-itoa_loop zero n buf h = ap (λ k. digits_value k buf) (omega arith)
digits_value-itoa_loop (suc f) n buf h = elim (Bool-cases (n == 0)) [
  | inl p ↦ rw (p, itoa_loop) (ap (λ k. digits_value k buf) (ground arith))
  | inr p ↦
      rw (p, itoa_loop)
        (digits_value-itoa_loop f (n / 10) ((48 + n % 10) ∷ buf) (ground arith)
          ∙ unfold digits_value in rw (digit_of n) (ap (λ k. digits_value k buf) (omega arith)))
]

-- The digits that itoa writes have the value of the number.
pub digits_value-itoa : (n : ℕ) → digits_value 0 (itoa n) ≡ some n
unfolding itoa digits_value
digits_value-itoa n = elim (Bool-cases (n == 0)) [
  | inl p ↦ rw p (ap some (ground arith))
  | inr p ↦ rw p (digits_value-itoa_loop n n [] (omega arith))
]

abbrev pub IsDigits : Text → Type 0
IsDigits s = All (λ c. is_digit c ≡ true) s

itoa_loop-IsDigits : (f n : ℕ) (buf : Text) → IsDigits buf → IsDigits (itoa_loop f n buf)
unfolding itoa_loop
itoa_loop-IsDigits zero n buf h = h
itoa_loop-IsDigits (suc f) n buf h = elim (Bool-cases (n == 0)) [
  | inl p ↦ rw (p, itoa_loop) h
  | inr p ↦ rw (p, itoa_loop) (itoa_loop-IsDigits f (n / 10) ((48 + n % 10) ∷ buf) (digit_of n, h))
]

pub itoa-IsDigits : (n : ℕ) → IsDigits (itoa n)
unfolding itoa
itoa-IsDigits n = elim (Bool-cases (n == 0)) [
  | inl p ↦ rw p (refl, tt)
  | inr p ↦ rw p (itoa_loop-IsDigits n n [] tt)
]

itoa_loop-length : (f n : ℕ) (buf : Text) → length buf ≤ length (itoa_loop f n buf)
unfolding itoa_loop
itoa_loop-length zero n buf = omega arith
itoa_loop-length (suc f) n buf = elim (Bool-cases (n == 0)) [
  | inl p ↦ rw (p, itoa_loop) (omega arith)
  | inr p ↦ rw (p, itoa_loop) (omega (arith, itoa_loop-length f (n / 10) ((48 + n % 10) ∷ buf)))
]

some_digit : (n : ℕ) → (n == 0) ≡ false → 1 ≤ length (itoa_loop n n [])
unfolding itoa_loop
some_digit zero p = cc
some_digit (suc n) p =
    rw (p, itoa_loop) (omega (arith, itoa_loop-length n (suc n / 10) ((48 + suc n % 10) ∷ [])))

-- At least one digit is written.
pub length-itoa : (n : ℕ) → 1 ≤ length (itoa n)
unfolding itoa
length-itoa n = elim (Bool-cases (n == 0)) [
  | inl p ↦ rw p (omega arith)
  | inr p ↦ rw p (some_digit n p)
]
