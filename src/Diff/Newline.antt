-- ===== src/Diff/Newline.antt =====
-- A text and the same text with a line feed at its end.
use mathlib.Core.Path.{subst}
use kalua.Prelude.{
  ℕ, ◌+◌, ◌≡◌, refl, sym, ap, ◌∙◌, inl, inr, false, List, [], ◌∷◌, ◌++◌, append-nil, map, ◌==◌,
  arith, Bool-cases, length, length-append,
}
use kalua.Prelude.Text.{Text, text_beq, text_beq_iff}
use kalua.Prelude.Split.{split, glue, split-nonempty}
use kalua.Diff.{tail, table, walk, dlines, runs, title, diff, drop_last_empty, lines}

glue-append :
    (c : ℕ) (ls : List Text) (first : Text) (rest : List Text)
    → ls ≡ first ∷ rest
    → glue c (ls ++ ([] ∷ [])) ≡ glue c ls ++ ([] ∷ [])
glue-append c ls first rest e = rw e refl

split-final : (s : Text) → split 10 (s ++ 10 ∷ []) ≡ split 10 s ++ ([] ∷ [])
unfolding split
split-final [] = refl
split-final (c ∷ s) =
    let (first, rest, f) = split-nonempty 10 s in
    elim (Bool-cases (c == 10)) [
      | inl e ↦ rw e (ap (λ r. [] ∷ r) (split-final s))
      | inr e ↦ rw e (ap (glue c) (split-final s) ∙ glue-append c (split 10 s) first rest f)
    ]

drop_last_empty-append :
    (x : Text) (xs : List Text) → drop_last_empty ((x ∷ xs) ++ ([] ∷ [])) ≡ x ∷ xs
unfolding drop_last_empty
drop_last_empty-append x [] = refl
drop_last_empty-append x (y ∷ xs) = ap (λ r. x ∷ r) (drop_last_empty-append y xs)

drop_last_empty-glue :
    (c : ℕ) (x : Text) (xs : List Text)
    → drop_last_empty (x ∷ xs) ≡ x ∷ xs
    → drop_last_empty ((c ∷ x) ∷ xs) ≡ (c ∷ x) ∷ xs
unfolding drop_last_empty
drop_last_empty-glue c x [] e = refl
drop_last_empty-glue c x (y ∷ xs) e = cc

longer : (s : Text) → s ≡ s ++ 10 ∷ [] → ⊥
longer s e = absurd (omega (arith, ap length e, length-append s (10 ∷ [])))

differs : (s : Text) → text_beq s (s ++ 10 ∷ []) ≡ false
differs s = elim (Bool-cases (text_beq s (s ++ 10 ∷ []))) [
  | inl e ↦ absurd (longer s ((text_beq_iff s (s ++ 10 ∷ [])).0 e))
  | inr e ↦ e
]

module _ (c : ℕ) (no_feed : (c == 10) ≡ false) where
  lines-split : (t : Text) → lines (t ++ c ∷ []) ≡ split 10 (t ++ c ∷ [])
  unfolding lines split drop_last_empty
  lines-split [] = rw no_feed refl
  lines-split (d ∷ t) =
      let (first, rest, f) = split-nonempty 10 (t ++ c ∷ []) in
      let ih : drop_last_empty (first ∷ rest) ≡ first ∷ rest =
        subst (λ r. drop_last_empty r ≡ r) f (lines-split t) in
      elim (Bool-cases (d == 10)) [
        | inl e ↦ rw (e, f) (ap (λ r. [] ∷ r) ih)
        | inr e ↦ rw (e, f) (drop_last_empty-glue d first rest ih)
      ]

  lines-final : (t : Text) → lines ((t ++ c ∷ []) ++ 10 ∷ []) ≡ lines (t ++ c ∷ [])
  unfolding lines
  lines-final t =
      let (first, rest, f) = split-nonempty 10 (t ++ c ∷ []) in
      ap drop_last_empty (split-final (t ++ c ∷ []))
      ∙ (ap (λ r. drop_last_empty (r ++ ([] ∷ []))) f
          ∙ (drop_last_empty-append first rest ∙ (sym f ∙ sym (lines-split t))))

runs-walk_same : (l : List Text) (dp : List (List ℕ)) (i j : ℕ) → runs [] (walk l l dp i j) ≡ []
unfolding runs walk
runs-walk_same [] dp i j = refl
runs-walk_same (x ∷ l) dp i j =
    rw ((text_beq_iff x x).1 refl, walk) (runs-walk_same l (map tail (tail dp)) (i + 1) (j + 1))

-- Where one text is the other with a line feed added to a last line that is not empty, Diff gives the
-- two lines of its title and no hunk.
pub diff_newline :
    (path t : Text) (c : ℕ)
    → (c == 10) ≡ false
    → diff path (t ++ c ∷ []) ((t ++ c ∷ []) ++ 10 ∷ []) ≡ title path
unfolding diff dlines
diff_newline path t c h =
    let s = t ++ c ∷ [] in
    rw (differs s, lines-final c h t, runs-walk_same (lines s) (table (lines s) (lines s)) 0 0)
      (append-nil (title path))
