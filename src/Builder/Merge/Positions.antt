-- ===== src/Builder/Merge/Positions.antt =====
-- What a merge makes of each control of the base.
use mathlib.Core.Path.{subst}
use kalua.Prelude.{
  ℕ, zero, suc, ◌+◌, ◌≡◌, refl, sym, ◌∙◌, ap, inl, inr, false, Option, none, some, List, [], ◌∷◌,
  ◌++◌, arith, get_elem?, length, length-append, get_elem?-append_left, get_elem?-set, Bool-cases,
  none-ne-some, if◌then◌else◌,
}
use kalua.Prelude.Text.{Text, text_eq, text_beq, text_beq_iff, is_empty}
use kalua.Prelude.Dict.{Dict, lookup, insert, lookup-insert}
use kalua.Builder.Model.{Control}
use kalua.Builder.Merge.{
  merge_control, controls_base, find_control, merge_one, controls_gen, merge_controls,
}
use kalua.Builder.Merge.Controls.{
  IsIndex, Merged, skipped, joined, added, merge_one-cases, Merged-IsIndex, controls_base-IsIndex,
  controls_base-out, empty-IsIndex,
}

module _ {V F : Type 0} where
  -- The first control of a name.
  abbrev pub find_named : List (Option (Control V F)) → Text → Option (Control V F)
  find_named [] n = none
  find_named (none ∷ cs) n = find_named cs n
  find_named (some c ∷ cs) n = if text_beq c.name n then some c else find_named cs n

  -- No two controls of the list have one name.
  abbrev pub HasDistinctControls : List (Option (Control V F)) → Type 0
  HasDistinctControls [] = Unit
  HasDistinctControls (none ∷ cs) = HasDistinctControls cs
  HasDistinctControls (some c ∷ cs) = (find_named cs c.name ≡ none) × HasDistinctControls cs

  -- A control of the base, with the generated control of its name if there is one.
  abbrev pub overlay_control : Control V F → Option (Control V F) → Control V F
  overlay_control b none = b
  overlay_control b (some g) = merge_control b g

  lookup-controls_base_absent :
      (n : Text) (cs out : List (Option (Control V F))) (index : Dict Text ℕ)
      → find_named cs n ≡ none
      → lookup n (controls_base cs out index).1 ≡ lookup n index
  unfolding controls_base
  lookup-controls_base_absent n [] out index e = refl
  lookup-controls_base_absent n (none ∷ cs) out index e =
      lookup-controls_base_absent n cs (out ++ none ∷ []) index e
  lookup-controls_base_absent n (some c ∷ cs) out index e = ground (
    arith,
    lookup-controls_base_absent n cs (out ++ some c ∷ []) (insert c.name (length out) index),
    lookup-insert c.name n (length out) index,
  )

  lookup-controls_base :
      (cs out : List (Option (Control V F))) (index : Dict Text ℕ) (i : ℕ) (b : Control V F)
      → HasDistinctControls cs
      → get_elem? cs i ≡ some (some b)
      → lookup b.name (controls_base cs out index).1 ≡ some (length out + i)
  unfolding controls_base
  lookup-controls_base [] out index i b u e = cc
  lookup-controls_base (none ∷ cs) out index zero b u e = cc
  lookup-controls_base (none ∷ cs) out index (suc i) b u e =
      lookup-controls_base cs (out ++ none ∷ []) index i b u e
      ∙ ap some (omega (arith, length-append out (none ∷ [])))
  lookup-controls_base (some c ∷ cs) out index zero b u e = ground (
    arith,
    lookup-controls_base_absent b.name cs (out ++ some c ∷ []) (insert c.name (length out) index),
    lookup-insert c.name b.name (length out) index,
    text_beq_iff c.name b.name,
  )
  lookup-controls_base (some c ∷ cs) out index (suc i) b u e =
      lookup-controls_base cs (out ++ some c ∷ []) _ i b u.1 e
      ∙ ap some (omega (arith, length-append out (some c ∷ [])))

  find_control-at :
      (out : List (Option (Control V F))) (i : ℕ) (x : Control V F)
      → get_elem? out i ≡ some (some x)
      → find_control out (some i) ≡ some (i, x)
  unfolding find_control
  find_control-at out i x g = rw (g, find_control)

  Merged-at :
      (c : Control V F) (out : List (Option (Control V F))) (index : Dict Text ℕ)
      {t : List (Option (Control V F)) × Dict Text ℕ} (i : ℕ) (x : Control V F) (n : Text)
      → is_empty n ≡ false
      → IsIndex (out, index)
      → lookup n index ≡ some i
      → get_elem? out i ≡ some (some x)
      → Merged c out index t
      → (lookup n t.1 ≡ some i)
        × (get_elem? t.0 i ≡ some (some (if text_beq c.name n then merge_control x c else x)))
  unfolding find_control
  Merged-at c out index i x n m h l g (skipped p) = (l, ground (arith, text_beq_iff c.name n))
  Merged-at c out index i x n m h l g (joined j b p q) =
      let (d, k, r) = h c.name j p in
      (
        l,
        get_elem?-set out j i (some (merge_control b c)) g
            ∙ ground (arith, text_beq_iff c.name n, k, r, (h n i l).1, (h n i l).2),
      )
  Merged-at c out index i x n m h l g (added p) = elim (Bool-cases (text_beq c.name n)) [
    | inl q ↦
        let at : lookup c.name index ≡ some i =
          subst (λ v. lookup v index ≡ some i) (sym ((text_beq_iff c.name n).0 q)) l in
        absurd (none-ne-some (sym p ∙ ap (find_control out) at ∙ find_control-at out i x g))
    | inr q ↦ (
      lookup-insert c.name n (length out) index ∙ rw q l,
      get_elem?-append_left out (some c ∷ []) i g ∙ rw q refl,
    )
  ]

  overlay-step :
      (c : Control V F) (gs : List (Option (Control V F))) (x : Control V F) (n : Text)
      → find_named gs c.name ≡ none
      → overlay_control (if text_beq c.name n then merge_control x c else x) (find_named gs n)
        ≡ overlay_control x (find_named (some c ∷ gs) n)
  overlay-step c gs x n u = ground (arith, text_beq_iff c.name n)

  controls_gen-at :
      (gs out : List (Option (Control V F))) (index : Dict Text ℕ) (i : ℕ) (x : Control V F)
      (n : Text)
      → is_empty n ≡ false
      → HasDistinctControls gs
      → IsIndex (out, index)
      → lookup n index ≡ some i
      → get_elem? out i ≡ some (some x)
      → get_elem? (controls_gen gs (out, index)).0 i
        ≡ some (some (overlay_control x (find_named gs n)))
  unfolding controls_gen
  controls_gen-at [] out index i x n m u h l g = g
  controls_gen-at (none ∷ gs) out index i x n m u h l g =
      controls_gen-at gs out index i x n m u h l g
  controls_gen-at (some c ∷ gs) out index i x n m u h l g =
      let s = merge_one c (out, index) in
      let step = merge_one-cases c out index in
      let (l', g') = Merged-at c out index i x n m h l g step in
      controls_gen-at gs s.0 s.1 i (if text_beq c.name n then merge_control x c else x) n m u.1
        (Merged-IsIndex c out index h step) l' g'
      ∙ ap (λ y. some (some y)) (overlay-step c gs x n u.0)

  -- Where no two controls of the base and no two generated ones have one name, each control of the
  -- base that has a name is found at its own position of the result, merged with the generated control
  -- of its name if there is one, and unchanged if there is none.
  pub get_elem?-merge_controls :
      (base gen : List (Option (Control V F))) (i : ℕ) (b : Control V F)
      → HasDistinctControls base
      → HasDistinctControls gen
      → is_empty b.name ≡ false
      → get_elem? base i ≡ some (some b)
      → get_elem? (merge_controls base gen) i
        ≡ some (some (overlay_control b (find_named gen b.name)))
  unfolding merge_controls
  get_elem?-merge_controls base gen i b u v m e =
      let s = controls_base base [] [] in
      controls_gen-at gen s.0 s.1 i b b.name m v (controls_base-IsIndex base [] [] empty-IsIndex)
        (lookup-controls_base base [] [] i b u e ∙ ap some (omega arith))
        (ap (λ l. get_elem? l i) (controls_base-out base [] []) ∙ e)
