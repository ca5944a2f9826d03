-- ===== src/Builder/Merge/Forms.antt =====
-- Which forms a merged document has.
use kalua.Prelude.{
  ◌≡◌, refl, sym, ◌∙◌, ap, inl, inr, Bool, true, false, ◌||◌, Option, none, some, List, [], ◌∷◌,
  ◌++◌, arith, elem, elem-nil, Option-cases, none-ne-some, if◌then◌else◌,
}
use kalua.Prelude.Text.{Text, text_eq, text_beq, text_beq_iff, is_empty}
use kalua.Prelude.Dict.{Dict, lookup, insert, lookup-insert, lookup-nil, or_else}
use kalua.Builder.Model.{Form, Document, find_form}
use kalua.Builder.Merge.Agree.{forms_base-NamesAgree, forms_gen-NamesAgree, find_form-map}
use kalua.Builder.Merge.{merge_form, forms_base, forms_gen, merge_document}

abbrev is_some {ℓ} : {A : Type ℓ} → Option A → Bool
is_some none = false
is_some (some x) = true

empty_ne : (n : Text) → is_empty n ≡ false → (m : Text) → is_empty m ≡ true → text_beq m n ≡ false
empty_ne n nonempty m h = ground (arith, text_beq_iff m n)

elem-snoc :
    (n m : Text) (order : List Text) → elem n (order ++ m ∷ []) ≡ (elem n order || text_beq m n)
unfolding elem
elem-snoc n m [] = ground arith
elem-snoc n m (x ∷ order) = ground (arith, elem-snoc n m order)

module _ {V F : Type 0} where
  -- No two forms of the list have one name.
  abbrev pub HasDistinctNames : List (Option (Form V F)) → Type 0
  HasDistinctNames [] = Unit
  HasDistinctNames (none ∷ fs) = HasDistinctNames fs
  HasDistinctNames (some f ∷ fs) = (find_form fs f.name ≡ none) × HasDistinctNames fs

  -- What a form becomes that the base has, the generated document, or both.
  abbrev pub overlay : F → Option (Form V F) → Option (Form V F) → Option (Form V F)
  overlay z none o = o
  overlay z (some b) none = some b
  overlay z (some b) (some g) = some (merge_form z b g)

  overlay-none : (z : F) (o : Option (Form V F)) → overlay z o none ≡ o
  overlay-none z none = refl
  overlay-none z (some b) = refl

  module _ (n : Text) (nonempty : is_empty n ≡ false) where
    lookup-forms_base :
        (fs : List (Option (Form V F))) (d : Dict Text (Form V F)) (order : List Text)
        → HasDistinctNames fs
        → lookup n (forms_base fs d order).0 ≡ or_else (find_form fs n) (lookup n d)
    unfolding forms_base find_form
    lookup-forms_base [] d order u = refl
    lookup-forms_base (none ∷ fs) d order u = lookup-forms_base fs d order u
    lookup-forms_base (some f ∷ fs) d order u = ground (
      arith,
      empty_ne n nonempty f.name,
      lookup-forms_base fs d order u.1,
      lookup-forms_base fs (insert f.name f d) (order ++ f.name ∷ []) u.1,
      lookup-insert f.name n f d,
      text_beq_iff f.name n,
    )

    elem-forms_base :
        (fs : List (Option (Form V F))) (d : Dict Text (Form V F)) (order : List Text)
        → elem n (forms_base fs d order).1 ≡ (elem n order || is_some (find_form fs n))
    unfolding forms_base find_form
    elem-forms_base [] d order = ground arith
    elem-forms_base (none ∷ fs) d order = elem-forms_base fs d order
    elem-forms_base (some f ∷ fs) d order = ground (
      arith,
      empty_ne n nonempty f.name,
      elem-forms_base fs d order,
      elem-forms_base fs (insert f.name f d) (order ++ f.name ∷ []),
      elem-snoc n f.name order,
    )

    lookup-forms_gen :
        (z : F) (gs : List (Option (Form V F))) (d : Dict Text (Form V F)) (order : List Text)
        → HasDistinctNames gs
        → lookup n (forms_gen z gs d order).0 ≡ overlay z (lookup n d) (find_form gs n)
    unfolding forms_gen find_form
    lookup-forms_gen z [] d order u = sym (overlay-none z (lookup n d))
    lookup-forms_gen z (none ∷ gs) d order u = lookup-forms_gen z gs d order u
    lookup-forms_gen z (some g ∷ gs) d order u = elim (Option-cases (lookup g.name d)) [
      | inl p ↦ rw p (
          ground (
            arith,
            p,
            empty_ne n nonempty g.name,
            lookup-forms_gen z gs d order u.1,
            lookup-forms_gen z gs (insert g.name g d) (order ++ g.name ∷ []) u.1,
            lookup-insert g.name n g d,
            text_beq_iff g.name n,
          ))
      | inr (b, p) ↦ rw p (
          ground (
            arith,
            p,
            empty_ne n nonempty g.name,
            lookup-forms_gen z gs d order u.1,
            lookup-forms_gen z gs (insert g.name (merge_form z b g) d) order u.1,
            lookup-insert g.name n (merge_form z b g) d,
            text_beq_iff g.name n,
          ))
    ]

    elem-forms_gen :
        (z : F) (gs : List (Option (Form V F))) (d : Dict Text (Form V F)) (order : List Text)
        → elem n order ≡ is_some (lookup n d)
        → elem n (forms_gen z gs d order).1 ≡ is_some (lookup n (forms_gen z gs d order).0)
    unfolding forms_gen find_form
    elem-forms_gen z [] d order e = e
    elem-forms_gen z (none ∷ gs) d order e = elem-forms_gen z gs d order e
    elem-forms_gen z (some g ∷ gs) d order e = elim (Option-cases (lookup g.name d)) [
      | inl p ↦ rw p (
          ground (
            arith,
            p,
            elem-forms_gen z gs d order e,
            elem-forms_gen z gs (insert g.name g d) (order ++ g.name ∷ []),
            elem-snoc n g.name order,
            lookup-insert g.name n g d,
          ))
      | inr (b, p) ↦ rw p (
          ground (
            arith,
            p,
            elem-forms_gen z gs d order e,
            elem-forms_gen z gs (insert g.name (merge_form z b g) d) order,
            lookup-insert g.name n (merge_form z b g) d,
            text_beq_iff g.name n,
          ))
    ]

  if_is_some : (t : Bool) (o : Option (Form V F)) → t ≡ is_some o → (if t then o else none) ≡ o
  if_is_some t o h = ground arith

  lookup_base :
      (n : Text)
      → is_empty n ≡ false
      → (fs : List (Option (Form V F))) → HasDistinctNames fs
      → lookup n (forms_base fs [] []).0 ≡ find_form fs n
  lookup_base n h fs u =
      ground (arith, lookup-forms_base n h fs [] [] u, lookup-nil {V = Form V F} n)

  base_is_some :
      (n : Text)
      → is_empty n ≡ false
      → (fs : List (Option (Form V F))) → HasDistinctNames fs
      → elem n (forms_base fs [] []).1 ≡ is_some (lookup n (forms_base fs [] []).0)
  base_is_some n h fs u =
      ground (arith, lookup_base n h fs u, elem-forms_base n h fs [] [], elem-nil n)

  -- For two documents in each of which no two forms have one name, the form of a name that is not
  -- empty is, in the merged document, that of the base, laid under that of the generated document
  -- where both have one; a name that neither has is in no form.
  pub find_form-merge_document :
      (z : F) (quote : Text → Text) (base gen : Document V F) (n : Text)
      → is_empty n ≡ false
      → HasDistinctNames base.forms
      → HasDistinctNames gen.forms
      → find_form (merge_document z quote base gen).forms n
        ≡ overlay z (find_form base.forms n) (find_form gen.forms n)
  unfolding merge_document
  find_form-merge_document z quote base gen n h u v =
      let b = forms_base base.forms [] [] in
      let g = forms_gen z gen.forms b.0 b.1 in
      let agree = forms_gen-NamesAgree z gen.forms b.0 b.1 (
        forms_base-NamesAgree base.forms [] []
          (λ m f e. absurd (none-ne-some (sym (lookup-nil m) ∙ e)))) in
      find_form-map n g.0 g.1 agree
      ∙ if_is_some (elem n g.1) (lookup n g.0)
          (elem-forms_gen n h z gen.forms b.0 b.1 (base_is_some n h base.forms u))
      ∙ lookup-forms_gen n h z gen.forms b.0 b.1 v
      ∙ ap (λ o. overlay z o (find_form gen.forms n)) (lookup_base n h base.forms u)

  -- Where no two forms of a document have one name, a merge shows a form of a name that is not empty
  -- and that both documents have without the k.form.show options of the base: it is not modal, and
  -- its gaps are zero, while its layout is the generated one or else that of the base.
  pub show_options_lost :
      (z : F) (quote : Text → Text) (base gen : Document V F) (n : Text) (b g : Form V F)
      → is_empty n ≡ false
      → HasDistinctNames base.forms
      → HasDistinctNames gen.forms
      → find_form base.forms n ≡ some b
      → find_form gen.forms n ≡ some g
      → (m : Form V F) × (find_form (merge_document z quote base gen).forms n ≡ some m)
        × (m.modal ≡ false)
        × (m.gap_x ≡ z)
        × (m.gap_y ≡ z)
        × (m.layout ≡ (if is_empty g.layout then b.layout else g.layout))
  unfolding merge_form
  show_options_lost z quote base gen n b g h u v p q = (
    merge_form z b g,
    find_form-merge_document z quote base gen n h u v ∙ rw (p, q) refl,
    refl,
    refl,
    refl,
    refl,
  )
