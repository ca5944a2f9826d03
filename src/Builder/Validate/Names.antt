-- ===== src/Builder/Validate/Names.antt =====
-- The names of the forms of a document that Validate has nothing to say of.
use kalua.Prelude.{
  ◌≡◌, refl, Bool, true, false, not, ◌&&◌, Option, none, some, List, [], ◌∷◌, ◌++◌, elem, arith,
}
use kalua.Prelude.Text.{Text, text_eq, text_beq_iff, is_empty}
use kalua.Builder.Model.{Form, Document, find_form}
use kalua.Builder.Merge.Forms.{HasDistinctNames}
use kalua.Builder.Validate.{
  Message, when, is_ident, form_name_required, form_name_not_identifier, duplicate_form,
  validate_form, validate_forms, validate, validate_all,
}

append-nil_inv : (xs ys : List Message) → xs ++ ys ≡ [] → (xs ≡ []) × (ys ≡ [])
append-nil_inv [] ys e = (refl, e)
append-nil_inv (x ∷ xs) ys e = cc

when-nil : (b : Bool) (m : Message) → when b m ≡ [] → b ≡ false
when-nil false m e = refl
when-nil true m e = cc

module _ {V F : Type 0} where
  -- No form is nil, and every name is an identifier.
  abbrev pub AllNamed : List (Option (Form V F)) → Type 0
  AllNamed [] = Unit
  AllNamed (none ∷ fs) = ⊥
  AllNamed (some f ∷ fs) = (is_ident f.name ≡ true) × AllNamed fs

  validate_form-ident : (f : Form V F) → validate_form f ≡ [] → is_ident f.name ≡ true
  unfolding validate_form
  validate_form-ident f e =
      let (a, r) = append-nil_inv _ _ e in
      let (b, q) = append-nil_inv _ _ r in
      let full = when-nil (is_empty f.name) form_name_required a in
      let named =
        when-nil (not (is_empty f.name) && not (is_ident f.name)) (form_name_not_identifier f.name)
          b in
      ground (arith, full, named)

  -- The parts of the messages of one form and those after it.
  validate_forms-cons :
      (f : Form V F) (fs : List (Option (Form V F))) (seen : List Text)
      → validate_forms (some f ∷ fs) seen ≡ []
      → (validate_form f ≡ [])
        × (elem f.name seen ≡ false)
        × (validate_forms fs (f.name ∷ seen) ≡ [])
  unfolding validate_forms
  validate_forms-cons f fs seen e =
      let (a, r) = append-nil_inv _ _ e in
      let (b, q) = append-nil_inv _ _ r in
      (a, when-nil (elem f.name seen) (duplicate_form f.name) b, q)

  nil_form :
      (fs : List (Option (Form V F))) (seen : List Text) → validate_forms (none ∷ fs) seen ≡ [] → ⊥
  unfolding validate_forms
  nil_form fs seen e = cc

  find_form-seen :
      (fs : List (Option (Form V F))) (seen : List Text) (n : Text)
      → validate_forms fs seen ≡ []
      → elem n seen ≡ true
      → find_form fs n ≡ none
  unfolding find_form elem
  find_form-seen [] seen n e h = refl
  find_form-seen (none ∷ fs) seen n e h = absurd (nil_form fs seen e)
  find_form-seen (some f ∷ fs) seen n e h =
      let (a, b, c) = validate_forms-cons f fs seen e in
      ground (arith, h, b, text_beq_iff f.name n, find_form-seen fs (f.name ∷ seen) n c)

  names-validate_forms :
      (fs : List (Option (Form V F))) (seen : List Text)
      → validate_forms fs seen ≡ []
      → HasDistinctNames fs × AllNamed fs
  unfolding elem
  names-validate_forms [] seen e = (tt, tt)
  names-validate_forms (none ∷ fs) seen e = absurd (nil_form fs seen e)
  names-validate_forms (some f ∷ fs) seen e =
      let (a, b, c) = validate_forms-cons f fs seen e in
      let (d, n) = names-validate_forms fs (f.name ∷ seen) c in
      (
        (
          find_form-seen fs (f.name ∷ seen) f.name c
              (ground (arith, (text_beq_iff f.name f.name).1 refl)),
          d,
        ),
        (validate_form-ident f a, n),
      )

  names-validate_all :
      (d : Document V F) (fs : List (Option (Form V F)))
      → validate_all d fs ≡ []
      → HasDistinctNames fs × AllNamed fs
  names-validate_all d [] e = (tt, tt)
  names-validate_all d (f ∷ fs) e =
      let (a, r) = append-nil_inv _ _ e in
      let (b, q) = append-nil_inv _ _ r in names-validate_forms (f ∷ fs) [] q

  -- A document that Validate accepts has no nil form, every form has an identifier as its name,
  -- and no two forms have one name.
  pub names-validate :
      (d : Document V F) → validate d ≡ [] → HasDistinctNames d.forms × AllNamed d.forms
  unfolding validate
  names-validate d e = names-validate_all d d.forms e
