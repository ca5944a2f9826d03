-- ===== src/Config/Comment.antt =====
-- A comment on the line of a value is a part of the value.
use kalua.Prelude.{
  ◌≡◌, refl, sym, ap, ◌∙◌, true, false, [], ◌∷◌, arith, elem, nat_eq, Bool-cases, inl, inr,
}
use kalua.Prelude.Text.{Text, bytes, text_eq, text_beq, text_beq_iff, is_empty}
use kalua.Prelude.Ascii.{trim_space, trim_left, trim_right, to_lower}
use kalua.Config.{truthy}

elem-trim_left : (s : Text) → elem b';' (trim_left s) ≡ elem b';' s
unfolding trim_left elem
elem-trim_left [] = refl
elem-trim_left (c ∷ s) = ground (arith, elem-trim_left s)

is_empty-elem : (s : Text) → is_empty s ≡ true → elem b';' s ≡ false
unfolding elem
is_empty-elem [] h = refl
is_empty-elem (c ∷ s) h = cc

elem-trim_right : (s : Text) → elem b';' (trim_right s) ≡ elem b';' s
unfolding trim_right elem
elem-trim_right [] = refl
elem-trim_right (c ∷ s) = ground (arith, elem-trim_right s, is_empty-elem (trim_right s))

elem-to_lower : (s : Text) → elem b';' (to_lower s) ≡ elem b';' s
unfolding to_lower elem
elem-to_lower [] = refl
elem-to_lower (c ∷ s) = ground (arith, elem-to_lower s)

elem-semicolon : (v : Text) → elem b';' (to_lower (trim_space v)) ≡ elem b';' v
unfolding trim_space
elem-semicolon v =
    elem-to_lower (trim_right (trim_left v)) ∙ elem-trim_right (trim_left v) ∙ elem-trim_left v

-- No text with a semicolon is a word without one.
unlike : (s word : Text) → elem b';' s ≡ true → elem b';' word ≡ false → text_beq s word ≡ false
unlike s word h k = elim (Bool-cases (text_beq s word)) [
  | inr p ↦ p
  | inl p ↦
      let e : elem b';' word ≡ true = ap (λ t. elem b';' t) (sym ((text_beq_iff s word).0 p)) ∙ h in
      let clash : true ≡ false = sym e ∙ k in cc
]

-- A value with a semicolon in it is false, whatever stands before: the word for true and a comment
-- behind it on one line are false.
pub truthy_comment : (v : Text) → elem b';' v ≡ true → truthy v ≡ false
unfolding truthy elem
truthy_comment v h =
    let e : elem b';' (to_lower (trim_space v)) ≡ true = elem-semicolon v ∙ h in
    let s = to_lower (trim_space v) in
    rw
      (
        unlike s (bytes "1") e refl,
        unlike s (bytes "true") e refl,
        unlike s (bytes "t") e refl,
        unlike s (bytes "yes") e refl,
        unlike s (bytes "y") e refl,
        unlike s (bytes "on") e refl,
      )
      refl
