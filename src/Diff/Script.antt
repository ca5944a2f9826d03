-- ===== src/Diff/Script.antt =====
-- The lines of a diff as an edit script: both texts can be read off it, and their numbers.
use kalua.Prelude.{
  ℕ, ◌+◌, ◌≡◌, refl, ap, ◌∙◌, ◌⊎◌, inl, inr, Bool, true, false, List, [], ◌∷◌, map, leb, Bool-cases,
}
use kalua.Prelude.Text.{Text, text_beq, text_beq_iff}
use kalua.Diff.{Dline, keep, add, del, on_kind, head_or, tail, first_row, table, walk, dlines}

-- The lines that are kept or deleted, and those that are kept or added.
unfoldable pub olds : List Dline → List Text
olds [] = []
olds (d ∷ dl) = let rest = olds dl in on_kind d.kind (d.text ∷ rest) rest (d.text ∷ rest)

unfoldable pub news : List Dline → List Text
news [] = []
news (d ∷ dl) = let rest = news dl in on_kind d.kind (d.text ∷ rest) (d.text ∷ rest) rest

module _ (x : Text) (a : List Text) (y : Text) (b : List Text) (dp : List (List ℕ)) (i j : ℕ) where
  -- The walk where it goes on in both texts, in the new one and in the old one.
  abbrev pub kept : List Dline
  kept =
      record { kind = keep; text = x; a = i + 1; b = j + 1 }
      ∷ walk a b (map tail (tail dp)) (i + 1) (j + 1)

  abbrev pub added : List Dline
  added = record { kind = add; text = y; a = 0; b = j + 1 } ∷ walk (x ∷ a) b (map tail dp) i (j + 1)

  abbrev pub deleted : List Dline
  deleted = record { kind = del; text = x; a = i + 1; b = 0 } ∷ walk a (y ∷ b) (tail dp) (i + 1) j

  abbrev pub prefers_new : Bool
  prefers_new = leb (head_or (first_row (tail dp))) (head_or (tail (first_row dp)))

  pub walk-cases :
      ((x ≡ y) × (walk (x ∷ a) (y ∷ b) dp i j ≡ kept))
      ⊎ ((text_beq x y ≡ false) × (prefers_new ≡ true) × (walk (x ∷ a) (y ∷ b) dp i j ≡ added))
      ⊎ ((text_beq x y ≡ false) × (prefers_new ≡ false) × (walk (x ∷ a) (y ∷ b) dp i j ≡ deleted))
  unfolding walk
  walk-cases = elim (Bool-cases (text_beq x y)) [
    | inl e ↦ inl ((text_beq_iff x y).0 e, rw (e, walk) refl)
    | inr e ↦ elim (Bool-cases prefers_new) [
      | inl p ↦ inr (inl (e, p, rw (e, p, walk) refl))
      | inr p ↦ inr (inr (e, p, rw (e, p, walk) refl))
    ]
  ]

olds-walk : (a b : List Text) (dp : List (List ℕ)) (i j : ℕ) → olds (walk a b dp i j) ≡ a
unfolding olds walk
olds-walk [] [] dp i j = refl
olds-walk [] (y ∷ b) dp i j = olds-walk [] b (map tail dp) i (j + 1)
olds-walk (x ∷ a) [] dp i j = ap (λ r. x ∷ r) (olds-walk a [] (tail dp) (i + 1) j)
olds-walk (x ∷ a) (y ∷ b) dp i j =
    let k = olds-walk a b (map tail (tail dp)) (i + 1) (j + 1) in
    let n = olds-walk (x ∷ a) b (map tail dp) i (j + 1) in
    let d = olds-walk a (y ∷ b) (tail dp) (i + 1) j in
    elim (walk-cases x a y b dp i j) [
      | inl (e, w) ↦ ap olds w ∙ ap (λ r. x ∷ r) k
      | inr (inl (e, p, w)) ↦ ap olds w ∙ n
      | inr (inr (e, p, w)) ↦ ap olds w ∙ ap (λ r. x ∷ r) d
    ]

news-walk : (a b : List Text) (dp : List (List ℕ)) (i j : ℕ) → news (walk a b dp i j) ≡ b
unfolding news walk
news-walk [] [] dp i j = refl
news-walk [] (y ∷ b) dp i j = ap (λ r. y ∷ r) (news-walk [] b (map tail dp) i (j + 1))
news-walk (x ∷ a) [] dp i j = news-walk a [] (tail dp) (i + 1) j
news-walk (x ∷ a) (y ∷ b) dp i j =
    let k = news-walk a b (map tail (tail dp)) (i + 1) (j + 1) in
    let n = news-walk (x ∷ a) b (map tail dp) i (j + 1) in
    let d = news-walk a (y ∷ b) (tail dp) (i + 1) j in
    elim (walk-cases x a y b dp i j) [
      | inl (e, w) ↦ ap news w ∙ rw (k, e) refl
      | inr (inl (e, p, w)) ↦ ap news w ∙ ap (λ r. y ∷ r) n
      | inr (inr (e, p, w)) ↦ ap news w ∙ d
    ]

-- For any two texts, the lines of a diff that are kept or deleted are those of the old text, and the
-- lines that are kept or added are those of the new one.
pub dlines-olds-news : (a b : List Text) → (olds (dlines a b) ≡ a) × (news (dlines a b) ≡ b)
unfolding dlines
dlines-olds-news a b = (olds-walk a b (table a b) 0 0, news-walk a b (table a b) 0 0)
