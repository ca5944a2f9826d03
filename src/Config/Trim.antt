-- ===== src/Config/Trim.antt =====
-- What trimming, splitting and the search for a byte do to text put together.
use kalua.Prelude.{
  ℕ, ◌-◌, ◌≡◌, refl, sym, ◌∙◌, Bool, true, false, not, [], ◌∷◌, ◌++◌, take, drop, length, arith,
  append_assoc, elem, nat_eq, length-append, take-append_length,
}
use kalua.Prelude.Text.{Text, bytes, is_empty}
use kalua.Prelude.Ascii.{trim_space, trim_left, trim_right, span, is_space}
use kalua.Config.{split_lines, ends, is_other}

abbrev pub starts_clean : Text → Bool
starts_clean [] = true
starts_clean (c ∷ s) = not (is_space c)

-- Neither the first nor the last byte is white space.
unfoldable pub Trimmed : Text → Type 0
Trimmed s = (starts_clean s ≡ true) × (trim_right s ≡ s)

pub trim_left-clean : (s : Text) → starts_clean s ≡ true → trim_left s ≡ s
unfolding trim_left
trim_left-clean [] h = refl
trim_left-clean (c ∷ s) h = ground (arith, h)

pub trim_space-Trimmed : (s : Text) → Trimmed s → trim_space s ≡ s
unfolding trim_space Trimmed
trim_space-Trimmed s h = rw (trim_left-clean s h.0, h.1) refl

-- A text that starts with no white space is trimmed at its end alone.
pub trim_space-clean : (s : Text) → starts_clean s ≡ true → trim_space s ≡ trim_right s
unfolding trim_space
trim_space-clean s h = rw (trim_left-clean s h) refl

is_empty-append : (s t : Text) → is_empty t ≡ false → is_empty (s ++ t) ≡ false
is_empty-append [] t h = h
is_empty-append (c ∷ s) t h = refl

-- The end of a text that is not all white space is what is trimmed.
pub trim_right-append :
    (s t : Text) → is_empty (trim_right t) ≡ false → trim_right (s ++ t) ≡ s ++ trim_right t
unfolding trim_right
trim_right-append [] t h = refl
trim_right-append (c ∷ s) t h =
    let e = trim_right-append s t h in rw (e, is_empty-append s (trim_right t) h) refl

-- White space at the end goes.
pub trim_right-append_space : (s t : Text) → trim_right t ≡ [] → trim_right (s ++ t) ≡ trim_right s
unfolding trim_right
trim_right-append_space [] t h = h
trim_right-append_space (c ∷ s) t h = rw (trim_right-append_space s t h) refl

-- A line is split off at the first line feed.
pub split_lines-append :
    (l t : Text) → elem 10 l ≡ false → split_lines (l ++ (10 ∷ t)) ≡ l ∷ split_lines t
unfolding split_lines elem
split_lines-append [] t h = refl
split_lines-append (c ∷ l) t h = ground (arith, split_lines-append l t)

pub ends-append : (c : ℕ) (s : Text) → ends c (s ++ (c ∷ [])) ≡ true
ends-append c [] = ground arith
ends-append c (d ∷ []) = ground arith
ends-append c (d ∷ e ∷ s) = ends-append c (e ∷ s)

-- What stands between the brackets.
pub take-brackets :
    (s : Text) (c d : ℕ)
    → take (length (c ∷ (s ++ (d ∷ []))) - 2) (drop 1 (c ∷ (s ++ (d ∷ [])))) ≡ s
take-brackets s c d =
    let e : length (c ∷ (s ++ (d ∷ []))) - 2 ≡ length s = omega (arith, length-append s (d ∷ [])) in
    rw e (take-append_length s (d ∷ []))

-- The first equals sign.
pub span-equals :
    (s t : Text) → elem b'=' s ≡ false → span is_other (s ++ (b'=' ∷ t)) ≡ (s, b'=' ∷ t)
unfolding span elem
span-equals [] t h = refl
span-equals (c ∷ s) t h = ground (arith, span-equals s t)

pub span-no_equals : (s : Text) → elem b'=' s ≡ false → span is_other s ≡ (s, [])
unfolding span elem
span-no_equals [] h = refl
span-no_equals (c ∷ s) h = ground (arith, span-no_equals s)

-- A blank and a trimmed text.
pub trim_space-padded : (v : Text) → Trimmed v → trim_space (trim_right (b' ' ∷ v)) ≡ v
unfolding trim_space trim_left trim_right Trimmed
trim_space-padded [] h = refl
trim_space-padded (c ∷ s) h =
    let e : trim_right (c ∷ s) ≡ c ∷ s = h.1 in rw (e, trim_left-clean (c ∷ s) h.0) h.1

trim_right-equals : (v : Text) → trim_right (bytes " = " ++ v) ≡ b' ' ∷ b'=' ∷ trim_right (b' ' ∷ v)
unfolding trim_right
trim_right-equals v = ground arith

-- The line of a key and a value.
pub trim_space-entry :
    (c : ℕ) (k v : Text)
    → is_space c ≡ false
    → trim_space ((c ∷ k) ++ (bytes " = " ++ v))
      ≡ ((c ∷ k) ++ bytes " ") ++ (b'=' ∷ trim_right (b' ' ∷ v))
trim_space-entry c k v n =
    trim_space-clean ((c ∷ k) ++ (bytes " = " ++ v)) (rw n refl)
    ∙ trim_right-append (c ∷ k) (bytes " = " ++ v) (rw (trim_right-equals v) refl)
    ∙ rw (trim_right-equals v)
        (sym (append_assoc (c ∷ k) (bytes " ") (b'=' ∷ trim_right (b' ' ∷ v))))

pub trim_space-key :
    (c : ℕ) (k : Text) → Trimmed (c ∷ k) → trim_space ((c ∷ k) ++ bytes " ") ≡ c ∷ k
unfolding Trimmed trim_right
trim_space-key c k h =
    trim_space-clean ((c ∷ k) ++ bytes " ") h.0
    ∙ trim_right-append_space (c ∷ k) (bytes " ") refl
    ∙ h.1

pub trim_space-header :
    (name : Text) → trim_space (b'[' ∷ (name ++ bytes "]")) ≡ b'[' ∷ (name ++ bytes "]")
unfolding trim_right
trim_space-header name =
    trim_space-clean (b'[' ∷ (name ++ bytes "]")) refl
    ∙ trim_right-append (b'[' ∷ name) (bytes "]") refl

pub trim_space-comment : (text : Text) → trim_space (b';' ∷ text) ≡ b';' ∷ trim_right text
unfolding trim_right
trim_space-comment text = trim_space-clean (b';' ∷ text) refl ∙ ground arith

pub nil-Trimmed : Trimmed []
unfolding Trimmed trim_right
nil-Trimmed = (refl, refl)

pub Trimmed-head : (c : ℕ) (s : Text) → Trimmed (c ∷ s) → is_space c ≡ false
unfolding Trimmed
Trimmed-head c s h = ground (arith, h.0)
