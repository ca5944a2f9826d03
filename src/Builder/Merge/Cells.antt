-- ===== src/Builder/Merge/Cells.antt =====
-- Which grid cells a merged form has.
use kalua.Prelude.{
  ℕ, zero, suc, inl, inr, ◌+◌, ◌≤◌, ◌≡◌, refl, sym, ◌∙◌, ap, false, Option, none, some, List, [],
  ◌∷◌, ◌++◌, map, arith, Bool-cases, Option-cases, none-ne-some, if◌then◌else◌,
}
use kalua.Prelude.Text.{Text, text_eq, text_beq, text_beq_iff, is_empty}
use kalua.Prelude.Dict.{Dict, lookup, insert, lookup-insert, lookup-nil, or_else}
use kalua.Builder.Model.{CellDef}
use kalua.Builder.Merge.{cells_base, merge_cells}

-- The last cell of an id.
abbrev pub last_cell : List (Option CellDef) → Text → Option CellDef
last_cell [] n = none
last_cell (none ∷ cs) n = last_cell cs n
last_cell (some c ∷ cs) n = or_else (last_cell cs n) (if text_beq c.id n then some c else none)

-- How many cells have an id.
abbrev pub count_cells : List (Option CellDef) → Text → ℕ
count_cells [] n = 0
count_cells (none ∷ cs) n = count_cells cs n
count_cells (some c ∷ cs) n =
    let rest = count_cells cs n in if text_beq c.id n then suc rest else rest

abbrev count_ids : List Text → Text → ℕ
count_ids [] n = 0
count_ids (m ∷ ms) n = let rest = count_ids ms n in if text_beq m n then suc rest else rest

count_ids-snoc :
    (ms : List Text) (m n : Text)
    → count_ids (ms ++ m ∷ []) n ≡ count_ids ms n + (if text_beq m n then 1 else 0)
count_ids-snoc [] m n = ground arith
count_ids-snoc (k ∷ ms) m n = ground (arith, count_ids-snoc ms m n)

abbrev one_if {ℓ} : {A : Type ℓ} → Option A → ℕ
one_if none = 0
one_if (some x) = 1

module _ (n : Text) (nonempty : is_empty n ≡ false) where
  lookup-cells_base :
      (cs : List (Option CellDef)) (order : List Text) (d : Dict Text CellDef)
      → lookup n (cells_base cs order d).1 ≡ or_else (last_cell cs n) (lookup n d)
  unfolding cells_base
  lookup-cells_base [] order d = refl
  lookup-cells_base (none ∷ cs) order d = lookup-cells_base cs order d
  lookup-cells_base (some c ∷ cs) order d = ground (
    arith,
    text_beq_iff c.id n,
    lookup-cells_base cs order d,
    lookup-cells_base cs (elim (lookup c.id d) [ none ↦ order ++ c.id ∷ [] | some x ↦ order ])
        (insert c.id c d),
    lookup-insert c.id n c d,
  )

  -- Every id that is known stands in the order once.
  count-cells_base :
      (cs : List (Option CellDef)) (order : List Text) (d : Dict Text CellDef)
      → count_ids order n ≡ one_if (lookup n d)
      → count_ids (cells_base cs order d).0 n ≡ one_if (lookup n (cells_base cs order d).1)
  unfolding cells_base
  count-cells_base [] order d h = h
  count-cells_base (none ∷ cs) order d h = count-cells_base cs order d h
  count-cells_base (some c ∷ cs) order d h = ground (
    arith,
    text_beq_iff c.id n,
    count-cells_base cs order d h,
    count-cells_base cs (elim (lookup c.id d) [ none ↦ order ++ c.id ∷ [] | some x ↦ order ])
        (insert c.id c d),
    lookup-insert c.id n c d,
    count_ids-snoc order c.id n,
  )

-- Every cell stands under its own id.
abbrev IdsAgree : Dict Text CellDef → Type 0
IdsAgree d = (m : Text) (c : CellDef) → lookup m d ≡ some c → c.id ≡ m

cells_base-IdsAgree :
    (cs : List (Option CellDef)) (order : List Text) (d : Dict Text CellDef)
    → IdsAgree d
    → IdsAgree (cells_base cs order d).1
unfolding cells_base
cells_base-IdsAgree [] order d h = h
cells_base-IdsAgree (none ∷ cs) order d h = cells_base-IdsAgree cs order d h
cells_base-IdsAgree (some c ∷ cs) order d h = elim (Bool-cases (is_empty c.id)) [
  | inl p ↦ rw p (cells_base-IdsAgree cs order d h)
  | inr p ↦ rw p (
      cells_base-IdsAgree cs (elim (lookup c.id d) [ none ↦ order ++ c.id ∷ [] | some x ↦ order ])
        (insert c.id c d)
        (λ m x e. ground (arith, h m x, lookup-insert c.id m c d, text_beq_iff c.id m)))
]

last_cell-map :
    (n : Text) (d : Dict Text CellDef) (order : List Text)
    → IdsAgree d
    → (last_cell (map (λ m. lookup m d) order) n
        ≡ (elim (count_ids order n) [ zero ↦ none | suc k ↦ lookup n d ]))
      × (count_cells (map (λ m. lookup m d) order) n ≤ count_ids order n)
last_cell-map n d [] h = (refl, omega arith)
last_cell-map n d (m ∷ order) h = elim (Option-cases (lookup m d)) [
  | inl p ↦ rw p (ground (arith, p, last_cell-map n d order h, text_beq_iff m n))
  | inr (c, p) ↦ rw p (ground (arith, p, h m c p, last_cell-map n d order h, text_beq_iff m n))
]

looked_base :
    (n : Text)
    → is_empty n ≡ false
    → (base : List (Option CellDef)) → lookup n (cells_base base [] []).1 ≡ last_cell base n
looked_base n h base = ground (arith, lookup-cells_base n h base [] [], lookup-nil {V = CellDef} n)

-- The last cell of an id that is not empty is, in the merged list, the last generated one of that id,
-- or else the last one of the base, and the list has at most one cell of the id.
pub merge_cells_lem :
    (base gen : List (Option CellDef)) (n : Text)
    → is_empty n ≡ false
    → (last_cell (merge_cells base gen) n ≡ or_else (last_cell gen n) (last_cell base n))
      × (count_cells (merge_cells base gen) n ≤ 1)
unfolding merge_cells
merge_cells_lem base gen n h =
    let b = cells_base base [] [] in
    let g = cells_base gen b.0 b.1 in
    let agree =
      cells_base-IdsAgree gen b.0 b.1 (
        cells_base-IdsAgree base [] [] (λ m c e. absurd (none-ne-some (sym (lookup-nil m) ∙ e)))) in
    let found = last_cell-map n g.1 g.0 agree in
    let counted =
      count-cells_base n h gen b.0 b.1 (count-cells_base n h base [] [] (rw lookup-nil refl)) in
    let looked =
      lookup-cells_base n h gen b.0 b.1 ∙ ap (or_else (last_cell gen n)) (looked_base n h base) in
    ground (arith, found, counted, looked)
