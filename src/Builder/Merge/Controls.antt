-- ===== src/Builder/Merge/Controls.antt =====
-- Which controls a merged form has: those of the base at their positions, then the new ones.
use kalua.Prelude.{
  ℕ, ◌≡◌, refl, sym, ◌∙◌, ap, ◌⊎◌, inl, inr, true, Option, none, some, List, [], ◌∷◌, ◌++◌, map,
  arith, append_assoc, append-nil, get_elem?, set, length, map-set, get_elem?-append_length,
  get_elem?-append_left, get_elem?-set, take, take-append_length, length-map, map-append,
  Bool-cases, none-ne-some, some_inj, ◌==◌,
}
use mathlib.Core.Path.{subst}
use kalua.Prelude.Text.{Text, text_eq, text_beq, text_beq_iff, is_empty}
use kalua.Prelude.Dict.{Dict, lookup, insert, lookup-insert, lookup-nil}
use kalua.Builder.Model.{Control}
use kalua.Builder.Merge.{
  merge_control, controls_base, find_control, merge_one, controls_gen, merge_controls,
}

module _ {V F : Type 0} where
  -- The name of a control; a `nil` has none.
  abbrev pub control_name : Option (Control V F) → Option Text
  control_name none = none
  control_name (some c) = some c.name

  -- The index of a name leads to a control of that name.
  abbrev pub IsIndex : List (Option (Control V F)) × Dict Text ℕ → Type 0
  IsIndex (out, index) =
      (n : Text) (i : ℕ)
      → lookup n index ≡ some i
      → (c : Control V F) × (get_elem? out i ≡ some (some c)) × (c.name ≡ n)

  push-IsIndex :
      (out : List (Option (Control V F))) (index : Dict Text ℕ) (c : Control V F)
      → IsIndex (out, index)
      → IsIndex (out ++ some c ∷ [], insert c.name (length out) index)
  push-IsIndex out index c h n i e = elim (Bool-cases (text_beq c.name n)) [
    | inl p ↦ (
      c,
      subst (λ j. get_elem? (out ++ some c ∷ []) j ≡ some (some c))
          (some_inj (sym (lookup-insert c.name n (length out) index ∙ rw p refl) ∙ e))
          (get_elem?-append_length out (some c)),
      (text_beq_iff c.name n).0 p,
    )
    | inr p ↦
        let (d, g, q) = h n i (sym (lookup-insert c.name n (length out) index ∙ rw p refl) ∙ e) in
        (d, get_elem?-append_left out (some c ∷ []) i g, q)
  ]

  find_control-cases :
      (out : List (Option (Control V F))) (o : Option ℕ)
      → (find_control out o ≡ none)
        ⊎ (i : ℕ) × (b : Control V F) × (o ≡ some i)
          × (get_elem? out i ≡ some (some b))
          × (find_control out o ≡ some (i, b))
  unfolding find_control
  find_control-cases out none = inl refl
  find_control-cases out (some i) = at_index (get_elem? out i) refl
    where
      at_index :
          (g : Option (Option (Control V F)))
          → get_elem? out i ≡ g
          → (find_control out (some i) ≡ none)
            ⊎ (j : ℕ) × (b : Control V F) × (some i ≡ some j)
              × (get_elem? out j ≡ some (some b))
              × (find_control out (some i) ≡ some (j, b))
      at_index none e = inl (rw (e, find_control))
      at_index (some none) e = inl (rw (e, find_control))
      at_index (some (some b)) e = inr (i, b, refl, e, rw (e, find_control))

  set-IsIndex :
      (out : List (Option (Control V F))) (index : Dict Text ℕ) (i : ℕ) (b c : Control V F)
      → IsIndex (out, index)
      → get_elem? out i ≡ some (some b)
      → c.name ≡ b.name
      → IsIndex (set out i (some c), index)
  set-IsIndex out index i b c h g q n j e =
      let (d, k, r) = h n j e in
      elim (Bool-cases (i == j)) [
        | inl p ↦ (c, get_elem?-set out i j (some c) k ∙ rw p refl, q ∙ ground (arith, p, g, k) ∙ r)
        | inr p ↦ (d, get_elem?-set out i j (some c) k ∙ rw p refl, r)
      ]

  -- One generated control: either it has no name, or it is merged into the control of its name, or
  -- it is a new one at the end.
  pub data Merged (c : Control V F) (out : List (Option (Control V F))) (index : Dict Text ℕ)
      : List (Option (Control V F)) × Dict Text ℕ → Type 0 where
    skipped : is_empty c.name ≡ true → Merged c out index (out, index)
    joined :
        (i : ℕ) (b : Control V F)
        → lookup c.name index ≡ some i
        → get_elem? out i ≡ some (some b)
        → Merged c out index (set out i (some (merge_control b c)), index)
    added :
        find_control out (lookup c.name index) ≡ none
        → Merged c out index (out ++ some c ∷ [], insert c.name (length out) index)

  pub merge_one-cases :
      (c : Control V F) (out : List (Option (Control V F))) (index : Dict Text ℕ)
      → Merged c out index (merge_one c (out, index))
  unfolding merge_one
  merge_one-cases c out index = elim (Bool-cases (is_empty c.name)) [
    | inl p ↦ rw p (skipped p)
    | inr p ↦ elim (find_control-cases out (lookup c.name index)) [
      | inl q ↦ rw (p, q) (added q)
      | inr (i, b, q, g, r) ↦ rw (p, r) (joined i b q g)
    ]
  ]

  pub Merged-IsIndex :
      (c : Control V F) (out : List (Option (Control V F))) (index : Dict Text ℕ)
      {t : List (Option (Control V F)) × Dict Text ℕ}
      → IsIndex (out, index)
      → Merged c out index t
      → IsIndex t
  unfolding merge_control
  Merged-IsIndex c out index h (skipped p) = h
  Merged-IsIndex c out index h (joined i b p g) =
      let (d, k, r) = h c.name i p in
      set-IsIndex out index i b (merge_control b c) h g (sym r ∙ ground (arith, g, k))
  Merged-IsIndex c out index h (added p) = push-IsIndex out index c h

  -- A generated control changes no name and moves none.
  Merged-names :
      (c : Control V F) (out : List (Option (Control V F))) (index : Dict Text ℕ)
      {t : List (Option (Control V F)) × Dict Text ℕ}
      → IsIndex (out, index)
      → Merged c out index t
      → (new : List (Option Text)) × (map control_name t.0 ≡ map control_name out ++ new)
  unfolding merge_control
  Merged-names c out index h (skipped p) = ([], sym (append-nil _))
  Merged-names c out index h (joined i b p g) =
      let (d, k, r) = h c.name i p in
      (
        [],
        map-set control_name out i (some (merge_control b c)) g (ap some (ground (arith, g, k, r)))
            ∙ sym (append-nil _),
      )
  Merged-names c out index h (added p) = (some c.name ∷ [], map-append control_name out _)

  controls_gen-names :
      (gs : List (Option (Control V F))) (out : List (Option (Control V F))) (index : Dict Text ℕ)
      → IsIndex (out, index)
      → (new : List (Option Text)) × (map control_name (controls_gen gs (out, index)).0
          ≡ map control_name out ++ new)
  unfolding controls_gen
  controls_gen-names [] out index h = ([], sym (append-nil _))
  controls_gen-names (none ∷ gs) out index h = controls_gen-names gs out index h
  controls_gen-names (some c ∷ gs) out index h =
      let m = merge_one-cases c out index in
      let (new, e) = Merged-names c out index h m in
      let s = merge_one c (out, index) in
      let (more, f) = controls_gen-names gs s.0 s.1 (Merged-IsIndex c out index h m) in
      (new ++ more, f ∙ ap (λ l. l ++ more) e ∙ append_assoc _ new more)

  pub controls_base-out :
      (cs out : List (Option (Control V F))) (index : Dict Text ℕ)
      → (controls_base cs out index).0 ≡ out ++ cs
  unfolding controls_base
  controls_base-out [] out index = sym (append-nil out)
  controls_base-out (none ∷ cs) out index =
      controls_base-out cs (out ++ none ∷ []) index ∙ append_assoc out _ cs
  controls_base-out (some c ∷ cs) out index =
      controls_base-out cs (out ++ some c ∷ []) _ ∙ append_assoc out _ cs

  pub controls_base-IsIndex :
      (cs out : List (Option (Control V F))) (index : Dict Text ℕ)
      → IsIndex (out, index)
      → IsIndex (controls_base cs out index)
  unfolding controls_base
  controls_base-IsIndex [] out index h = h
  controls_base-IsIndex (none ∷ cs) out index h =
      controls_base-IsIndex cs (out ++ none ∷ []) index
        (λ n i e. let (c, g, q) = h n i e in (c, get_elem?-append_left out _ i g, q))
  controls_base-IsIndex (some c ∷ cs) out index h =
      controls_base-IsIndex cs (out ++ some c ∷ []) _ (push-IsIndex out index c h)

  pub empty-IsIndex : IsIndex ([], [])
  empty-IsIndex n i e = absurd (none-ne-some (sym (lookup-nil n) ∙ e))

  -- A merge of controls deletes none, moves none and renames none: the names of the base, with its
  -- `nil` entries, are the first names of the result.
  pub names-merge_controls :
      (base gen : List (Option (Control V F)))
      → take (length base) (map control_name (merge_controls base gen)) ≡ map control_name base
  unfolding merge_controls
  names-merge_controls base gen =
      let s = controls_base base [] [] in
      let (new, e) =
        controls_gen-names gen s.0 s.1 (controls_base-IsIndex base [] [] empty-IsIndex) in
      let f = e ∙ ap (λ l. map control_name l ++ new) (controls_base-out base [] []) in
      ap (take (length base)) f
      ∙ ap (λ k. take k (map control_name base ++ new)) (sym (length-map base control_name))
      ∙ take-append_length (map control_name base) new
