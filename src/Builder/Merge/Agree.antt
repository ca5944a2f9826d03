-- ===== src/Builder/Merge/Agree.antt =====
-- Each form of the merged map stands under its own name (internal/builder/merge.go).
use kalua.Prelude.{
  ◌≡◌, refl, inl, inr, Option, none, some, List, [], ◌∷◌, ◌++◌, map, arith, elem, Bool-cases,
  Option-cases, if◌then◌else◌,
}
use kalua.Prelude.Text.{Text, text_eq, text_beq_iff, is_empty}
use kalua.Prelude.Dict.{Dict, lookup, insert, lookup-insert}
use kalua.Builder.Model.{Form, find_form}
use kalua.Builder.Merge.{merge_form, forms_base, forms_gen}

module _ {V F : Type 0} where
  -- Every form stands under its own name.
  abbrev pub NamesAgree : Dict Text (Form V F) → Type 0
  NamesAgree d = (m : Text) (f : Form V F) → lookup m d ≡ some f → f.name ≡ m

  insert-NamesAgree :
      (f : Form V F) (d : Dict Text (Form V F)) → NamesAgree d → NamesAgree (insert f.name f d)
  insert-NamesAgree f d h m x e =
      ground (arith, h m x, lookup-insert f.name m f d, text_beq_iff f.name m)

  pub forms_base-NamesAgree :
      (fs : List (Option (Form V F))) (d : Dict Text (Form V F)) (order : List Text)
      → NamesAgree d
      → NamesAgree (forms_base fs d order).0
  unfolding forms_base
  forms_base-NamesAgree [] d order h = h
  forms_base-NamesAgree (none ∷ fs) d order h = forms_base-NamesAgree fs d order h
  forms_base-NamesAgree (some f ∷ fs) d order h = elim (Bool-cases (is_empty f.name)) [
    | inl p ↦ rw p (forms_base-NamesAgree fs d order h)
    | inr p ↦ rw p (
        forms_base-NamesAgree fs (insert f.name f d) (order ++ f.name ∷ [])
          (insert-NamesAgree f d h))
  ]

  merge-NamesAgree :
      (z : F) (b g : Form V F) (d : Dict Text (Form V F))
      → lookup g.name d ≡ some b
      → NamesAgree d
      → NamesAgree (insert g.name (merge_form z b g) d)
  unfolding merge_form
  merge-NamesAgree z b g d p h m x e = ground (
    arith,
    h m x,
    h g.name b p,
    lookup-insert g.name m (merge_form z b g) d,
    text_beq_iff g.name m,
  )

  pub forms_gen-NamesAgree :
      (z : F) (gs : List (Option (Form V F))) (d : Dict Text (Form V F)) (order : List Text)
      → NamesAgree d
      → NamesAgree (forms_gen z gs d order).0
  unfolding forms_gen
  forms_gen-NamesAgree z [] d order h = h
  forms_gen-NamesAgree z (none ∷ gs) d order h = forms_gen-NamesAgree z gs d order h
  forms_gen-NamesAgree z (some g ∷ gs) d order h = elim (Bool-cases (is_empty g.name)) [
    | inl q ↦ rw q (forms_gen-NamesAgree z gs d order h)
    | inr q ↦ elim (Option-cases (lookup g.name d)) [
      | inl p ↦
          rw (q, p)
            (forms_gen-NamesAgree z gs (insert g.name g d) (order ++ g.name ∷ [])
              (insert-NamesAgree g d h))
      | inr (b, p) ↦
          rw (q, p)
            (forms_gen-NamesAgree z gs (insert g.name (merge_form z b g) d) order
              (merge-NamesAgree z b g d p h))
    ]
  ]

  pub find_form-map :
      (n : Text) (d : Dict Text (Form V F)) (order : List Text)
      → NamesAgree d
      → find_form (map (λ m. lookup m d) order) n ≡ (if elem n order then lookup n d else none)
  unfolding find_form elem
  find_form-map n d [] h = refl
  find_form-map n d (m ∷ order) h = elim (Option-cases (lookup m d)) [
    | inl p ↦ rw p (ground (arith, p, find_form-map n d order h, text_beq_iff m n))
    | inr (f, p) ↦ rw p (ground (arith, p, h m f p, find_form-map n d order h, text_beq_iff m n))
  ]
