-- ===== src/Diff/Lcs.antt =====
-- The table of Diff against the longest common subsequence.
use kalua.Prelude.{
  ℕ, suc, ◌+◌, ◌≤◌, ◌≡◌, refl, sym, ap, ◌∙◌, ◌⊎◌, inl, inr, Bool, true, false, List, [], ◌∷◌, map,
  leb, if◌then◌else◌, arith, Bool-cases, length,
}
use mathlib.Core.Path.{subst}
use kalua.Prelude.Text.{Text, text_beq, text_beq_iff}
use kalua.Diff.{
  Dline, Kind, keep, add, del, on_kind, head_or, tail, first_row, next_row, zeros, table, walk,
  dlines,
}
use kalua.Diff.Script.{olds, news, dlines-olds-news, walk-cases, prefers_new}

-- A subsequence: the text with some lines left out.
pub data Subsequence : List Text → List Text → Type 0 where
  nothing : Subsequence [] []
  leave : (c a : List Text) (x : Text) → Subsequence c a → Subsequence c (x ∷ a)
  take_line : (c a : List Text) (x : Text) → Subsequence c a → Subsequence (x ∷ c) (x ∷ a)

-- The recursion that the table holds the values of.
abbrev larger : ℕ → ℕ → ℕ
larger p q = if leb q p then p else q

lcs : List Text → List Text → ℕ
lcs [] b = 0
lcs (x ∷ a) [] = 0
lcs (x ∷ a) (y ∷ b) =
    let both = lcs a b + 1 in
    let one = larger (lcs a (y ∷ b)) (lcs (x ∷ a) b) in if text_beq x y then both else one

lcs-nil : (a : List Text) → lcs a [] ≡ 0
unfolding lcs
lcs-nil [] = refl
lcs-nil (x ∷ a) = refl

-- The values of a row, and of the rows.
lcs_row : List Text → List Text → List ℕ
lcs_row a [] = lcs a [] ∷ []
lcs_row a (y ∷ b) = lcs a (y ∷ b) ∷ lcs_row a b

lcs_table : List Text → List Text → List (List ℕ)
lcs_table [] b = lcs_row [] b ∷ []
lcs_table (x ∷ a) b = lcs_row (x ∷ a) b ∷ lcs_table a b

head-lcs_row : (a b : List Text) → head_or (lcs_row a b) ≡ lcs a b
unfolding lcs_row
head-lcs_row a [] = refl
head-lcs_row a (y ∷ b) = refl

first-lcs_table : (a b : List Text) → first_row (lcs_table a b) ≡ lcs_row a b
unfolding lcs_table
first-lcs_table [] b = refl
first-lcs_table (x ∷ a) b = refl

next_row-lcs_row : (x : Text) (a b : List Text) → next_row x b (lcs_row a b) ≡ lcs_row (x ∷ a) b
unfolding next_row lcs_row lcs
next_row-lcs_row x a [] = refl
next_row-lcs_row x a (y ∷ b) =
    rw (next_row-lcs_row x a b, head-lcs_row a b, head-lcs_row (x ∷ a) b) refl

zeros-lcs_row : (b : List Text) → zeros b ≡ lcs_row [] b
unfolding zeros lcs_row lcs
zeros-lcs_row [] = refl
zeros-lcs_row (y ∷ b) = ap (λ r. 0 ∷ r) (zeros-lcs_row b)

table-lcs_table : (a b : List Text) → table a b ≡ lcs_table a b
unfolding table lcs_table
table-lcs_table [] b = ap (λ r. r ∷ []) (zeros-lcs_row b)
table-lcs_table (x ∷ a) b =
    rw (table-lcs_table a b, first-lcs_table a b, next_row-lcs_row x a b) refl

tail-lcs_table :
    (a : List Text) (y : Text) (b : List Text) → map tail (lcs_table a (y ∷ b)) ≡ lcs_table a b
unfolding lcs_table lcs_row
tail-lcs_table [] y b = refl
tail-lcs_table (x ∷ a) y b = ap (λ r. lcs_row (x ∷ a) b ∷ r) (tail-lcs_table a y b)

-- The lines that a diff keeps.
unfoldable pub keeps : List Dline → List Text
keeps [] = []
keeps (d ∷ dl) = let rest = keeps dl in on_kind d.kind (d.text ∷ rest) rest rest

larger-max : (p q : ℕ) → (p ≤ larger p q) × (q ≤ larger p q)
larger-max p q = ground arith

larger_right : (p q : ℕ) → leb p q ≡ true → q ≡ larger p q
larger_right p q h = ground (arith, h)

larger_left : (p q : ℕ) → leb p q ≡ false → p ≡ larger p q
larger_left p q h = ground (arith, h)

module _ (x : Text) (a : List Text) (y : Text) (b : List Text) where
  lcs_same : x ≡ y → lcs (x ∷ a) (y ∷ b) ≡ lcs a b + 1
  unfolding lcs
  lcs_same e = rw ((text_beq_iff x y).1 e, lcs) refl

  lcs_other : text_beq x y ≡ false → lcs (x ∷ a) (y ∷ b) ≡ larger (lcs a (y ∷ b)) (lcs (x ∷ a) b)
  unfolding lcs
  lcs_other e = rw (e, lcs) refl

  prefers_new-lcs :
      (i j : ℕ)
      → prefers_new x a y b (lcs_table (x ∷ a) (y ∷ b)) i j ≡ leb (lcs a (y ∷ b)) (lcs (x ∷ a) b)
  unfolding lcs_table lcs_row
  prefers_new-lcs i j =
      rw (first-lcs_table a (y ∷ b), head-lcs_row a (y ∷ b), head-lcs_row (x ∷ a) b) refl

-- With the values of the recursion in the table, the walk keeps as many lines as they promise.
length-keeps-walk :
    (a b : List Text) (i j : ℕ) → length (keeps (walk a b (lcs_table a b) i j)) ≡ lcs a b
unfolding keeps walk lcs lcs_table
length-keeps-walk [] [] i j = refl
length-keeps-walk [] (y ∷ b) i j = rw (tail-lcs_table [] y b) (length-keeps-walk [] b i (j + 1))
length-keeps-walk (x ∷ a) [] i j = length-keeps-walk a [] (i + 1) j ∙ lcs-nil a
length-keeps-walk (x ∷ a) (y ∷ b) i j =
    let k = length-keeps-walk a b (i + 1) (j + 1) in
    let n = length-keeps-walk (x ∷ a) b i (j + 1) in
    let d = length-keeps-walk a (y ∷ b) (i + 1) j in
    let g = λ (l : List Dline). length (keeps l) in
    let k' : g (walk a b (map tail (lcs_table a (y ∷ b))) (i + 1) (j + 1)) ≡ lcs a b =
      rw (tail-lcs_table a y b) k in
    let n' : g (walk (x ∷ a) b (map tail (lcs_table (x ∷ a) (y ∷ b))) i (j + 1)) ≡ lcs (x ∷ a) b =
      rw (tail-lcs_table (x ∷ a) y b) n in
    let q = prefers_new-lcs x a y b i j in
    elim (walk-cases x a y b (lcs_table (x ∷ a) (y ∷ b)) i j) [
      | inl (e, w) ↦ ap g w ∙ (ap suc k' ∙ (omega arith ∙ sym (lcs_same x a y b e)))
      | inr (inl (e, p, w)) ↦
          ap g w ∙ (n' ∙ (larger_right _ _ (sym q ∙ p) ∙ sym (lcs_other x a y b e)))
      | inr (inr (e, p, w)) ↦
          ap g w ∙ (d ∙ (larger_left _ _ (sym q ∙ p) ∙ sym (lcs_other x a y b e)))
    ]

Subsequence-tail : (z : Text) (c a : List Text) → Subsequence (z ∷ c) a → Subsequence c a
Subsequence-tail z c _ (leave _ a x s) = leave c a x (Subsequence-tail z c a s)
Subsequence-tail z c _ (take_line _ a _ s) = leave c a z s

Subsequence-cons :
    (x : Text) (c a : List Text)
    → Subsequence c (x ∷ a)
    → Subsequence c a ⊎ ((r : List Text) × (c ≡ x ∷ r) × Subsequence r a)
Subsequence-cons x c _ (leave _ a _ s) = inl s
Subsequence-cons x _ _ (take_line c a _ s) = inr (c, refl, s)

Subsequence-heads : (z x : Text) (c a : List Text) → Subsequence (z ∷ c) (x ∷ a) → Subsequence c a
Subsequence-heads z x c _ (leave _ a _ s) = Subsequence-tail z c a s
Subsequence-heads z _ c _ (take_line _ a _ s) = s

length-Subsequence_nil : (c : List Text) → Subsequence c [] → length c ≤ 0
length-Subsequence_nil _ nothing = omega arith

differ : (b : Bool) → b ≡ false → b ≡ true → ⊥
differ b e f = cc

heads_eq :
    (z : Text) {x y : Text} (c : List Text) {r q : List Text}
    → z ∷ c ≡ x ∷ r
    → z ∷ c ≡ y ∷ q
    → x ≡ y
heads_eq z c e f = cc

length-le-lcs : (a b c : List Text) → Subsequence c a → Subsequence c b → length c ≤ lcs a b
length-le-lcs [] b c s t = omega (arith, length-Subsequence_nil c s)
length-le-lcs (x ∷ a) [] c s t = omega (arith, length-Subsequence_nil c t)
length-le-lcs (x ∷ a) (y ∷ b) [] s t = omega arith
length-le-lcs (x ∷ a) (y ∷ b) (z ∷ c) s t = elim (Bool-cases (text_beq x y)) [
  | inl e ↦ omega (
    arith,
    lcs_same x a y b ((text_beq_iff x y).0 e),
    length-le-lcs a b c (Subsequence-heads z x c a s) (Subsequence-heads z y c b t),
  )
  | inr e ↦ elim (Subsequence-cons x (z ∷ c) a s) [
    | inl s' ↦ omega (
      arith,
      lcs_other x a y b e,
      (larger-max (lcs a (y ∷ b)) (lcs (x ∷ a) b)).0,
      length-le-lcs a (y ∷ b) (z ∷ c) s' t,
    )
    | inr (r, f, s') ↦ elim (Subsequence-cons y (z ∷ c) b t) [
      | inl t' ↦ omega (
        arith,
        lcs_other x a y b e,
        (larger-max (lcs a (y ∷ b)) (lcs (x ∷ a) b)).1,
        length-le-lcs (x ∷ a) b (z ∷ c) s t',
      )
      | inr (q, g, t') ↦ absurd (differ (text_beq x y) e ((text_beq_iff x y).1 (heads_eq z c f g)))
    ]
  ]
]

on_olds :
    (k : Kind) (x : Text) (c a : List Text)
    → Subsequence c a
    → Subsequence (on_kind k (x ∷ c) c c) (on_kind k (x ∷ a) a (x ∷ a))
on_olds keep x c a s = take_line c a x s
on_olds add x c a s = s
on_olds del x c a s = leave c a x s

on_news :
    (k : Kind) (x : Text) (c b : List Text)
    → Subsequence c b
    → Subsequence (on_kind k (x ∷ c) c c) (on_kind k (x ∷ b) (x ∷ b) b)
on_news keep x c b s = take_line c b x s
on_news add x c b s = leave c b x s
on_news del x c b s = s

keeps-Subsequence-olds : (dl : List Dline) → Subsequence (keeps dl) (olds dl)
unfolding keeps olds
keeps-Subsequence-olds [] = nothing
keeps-Subsequence-olds (d ∷ dl) =
    on_olds d.kind d.text (keeps dl) (olds dl) (keeps-Subsequence-olds dl)

keeps-Subsequence-news : (dl : List Dline) → Subsequence (keeps dl) (news dl)
unfolding keeps news
keeps-Subsequence-news [] = nothing
keeps-Subsequence-news (d ∷ dl) =
    on_news d.kind d.text (keeps dl) (news dl) (keeps-Subsequence-news dl)

-- The lines that a diff keeps are a longest common subsequence of the two texts.
pub keeps-longest :
    (a b : List Text)
    → Subsequence (keeps (dlines a b)) a
      × Subsequence (keeps (dlines a b)) b
      × ((c : List Text)
          → Subsequence c a
          → Subsequence c b
          → length c ≤ length (keeps (dlines a b)))
unfolding dlines
keeps-longest a b =
    let o : Subsequence (keeps (dlines a b)) a =
      subst (λ t. Subsequence (keeps (dlines a b)) t) (dlines-olds-news a b).0
        (keeps-Subsequence-olds (dlines a b)) in
    let n : Subsequence (keeps (dlines a b)) b =
      subst (λ t. Subsequence (keeps (dlines a b)) t) (dlines-olds-news a b).1
        (keeps-Subsequence-news (dlines a b)) in
    let l : length (keeps (dlines a b)) ≡ lcs a b =
      rw (table-lcs_table a b) (length-keeps-walk a b 0 0) in
    (o, n, λ c s t. omega (arith, l, length-le-lcs a b c s t))
