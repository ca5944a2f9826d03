-- ===== src/Prelude/Split.antt =====
-- Split, Join and Contains of Go's strings package, for a separator or a text of one byte.
use Prim.Native.Nat.{ℕ}
use mathlib.Core.Path.{◌≡◌, refl, sym, ap, ◌∙◌}
use mathlib.Core.Logic.{inl, inr}
use mathlib.Core.Bool.{Bool, false, ◌||◌}
use mathlib.Core.List.{List, [], ◌∷◌, ◌++◌}
use native.Mathlib.Omega.{arith}
use kalua.Prelude.Tests.{◌==◌, if◌then◌else◌, Bool-cases}
use kalua.Prelude.Text.{Text}

-- A byte before the first part.
abbrev pub glue : ℕ → List Text → List Text
glue c [] = (c ∷ []) ∷ []
glue c (s ∷ parts) = (c ∷ s) ∷ parts

-- strings.Split: a text without the separator is one part, also the empty text.
unfoldable pub split : ℕ → Text → List Text
split sep [] = [] ∷ []
split sep (c ∷ s) = let rest = split sep s in if c == sep then [] ∷ rest else glue c rest

-- strings.Join
unfoldable pub join : Text → List Text → Text
join sep [] = []
join sep (s ∷ []) = s
join sep (s ∷ t ∷ parts) = s ++ (sep ++ join sep (t ∷ parts))

-- strings.Contains, for a text of one byte
unfoldable pub contains : ℕ → Text → Bool
contains b [] = false
contains b (c ∷ s) = c == b || contains b s

pub split-nonempty :
    (sep : ℕ) (s : Text) → (first : Text) × (rest : List Text) × (split sep s ≡ first ∷ rest)
unfolding split
split-nonempty sep [] = ([], [], refl)
split-nonempty sep (c ∷ s) = elim (Bool-cases (c == sep)) [
  | inl e ↦ ([], split sep s, rw e refl)
  | inr e ↦ let (first, rest, f) = split-nonempty sep s in (c ∷ first, rest, rw (e, f) refl)
]

join-glue :
    (sep : Text) (c : ℕ) (s : Text) (r : List Text)
    → join sep (glue c (s ∷ r)) ≡ c ∷ join sep (s ∷ r)
unfolding join
join-glue sep c s [] = refl
join-glue sep c s (t ∷ r) = refl

join-first :
    (sep : Text) (ls : List Text) {s : Text} {r : List Text}
    → ls ≡ s ∷ r
    → join sep ([] ∷ ls) ≡ sep ++ join sep ls
unfolding join
join-first sep ls e = rw e refl

-- Nothing of a text is lost when it is split.
pub join-split : (sep : ℕ) (s : Text) → join (sep ∷ []) (split sep s) ≡ s
unfolding split join
join-split sep [] = refl
join-split sep (c ∷ s) =
    let (first, rest, f) = split-nonempty sep s in
    elim (Bool-cases (c == sep)) [
      | inl e ↦
          let same : c ≡ sep = ground arith in
          rw e (join-first (sep ∷ []) (split sep s) f ∙ rw (join-split sep s, same) refl)
      | inr e ↦
          rw (e, f)
            (join-glue (sep ∷ []) c first rest ∙ ap (λ r. c ∷ r) (rw (← f) (join-split sep s)))
    ]

pub split-inj : (sep : ℕ) (s t : Text) → split sep s ≡ split sep t → s ≡ t
split-inj sep s t e = sym (join-split sep s) ∙ ap (join (sep ∷ [])) e ∙ join-split sep t
