-- ===== src/Prelude/Ascii.antt =====
-- The functions of Go's strings package that the program uses, on ASCII text: TrimSpace, ToLower,
-- HasPrefix, HasSuffix, IndexByte, and the split of a text at its first byte that fails a test.
use Prim.Native.Nat.{ℕ, ◌+◌}
use mathlib.Core.Path.{◌≡◌, refl, ap, ◌∙◌}
use mathlib.Core.Bool.{Bool, true, false, ◌&&◌, ◌||◌}
use mathlib.Core.List.{[], ◌∷◌, ◌++◌, map}
use native.Mathlib.Omega.{arith}
use kalua.Prelude.Tests.{◌==◌, leb, if◌then◌else◌}
use kalua.Prelude.Lists.{All, length}
use kalua.Prelude.Text.{Text, is_empty}

-- Tab, line feed, vertical tab, form feed, carriage return and space.
abbrev pub is_space : ℕ → Bool
is_space c = leb 9 c && leb c 13 || c == 32

unfoldable pub trim_left : Text → Text
trim_left [] = []
trim_left (c ∷ s) = let rest = trim_left s in if is_space c then rest else c ∷ s

unfoldable pub trim_right : Text → Text
trim_right [] = []
trim_right (c ∷ s) = let r = trim_right s in if is_empty r && is_space c then [] else c ∷ r

unfoldable pub trim_space : Text → Text
unfolding trim_left trim_right
trim_space s = trim_right (trim_left s)

abbrev pub lower : ℕ → ℕ
lower c = if leb 65 c && leb c 90 then c + 32 else c

unfoldable pub to_lower : Text → Text
to_lower = map lower

-- The longest front whose bytes pass the test, and the rest.
unfoldable pub span : (ℕ → Bool) → Text → Text × Text
span p [] = ([], [])
span p (c ∷ s) = let r = span p s in if p c then (c ∷ r.0, r.1) else ([], c ∷ s)

abbrev pub Holds : (ℕ → Bool) → Text → Type 0
Holds p s = All (λ c. p c ≡ true) s

pub span-append :
    (p : ℕ → Bool) (s t : Text) → Holds p s → span p (s ++ t) ≡ (s ++ (span p t).0, (span p t).1)
unfolding span
span-append p [] t h = refl
span-append p (c ∷ s) t h = ground (arith, span-append p s t h.1, h.0)

pub length-span : (p : ℕ → Bool) (s : Text) → length (span p s).0 + length (span p s).1 ≡ length s
unfolding span
length-span p [] = omega arith
length-span p (c ∷ s) = ground (arith, length-span p s)

-- Text with no white space is not changed.
abbrev pub HasNoSpace : Text → Type 0
HasNoSpace s = All (λ c. is_space c ≡ false) s

trim_right_lem : (s : Text) → HasNoSpace s → trim_right s ≡ s
unfolding trim_right
trim_right_lem [] h = refl
trim_right_lem (c ∷ s) h = ground (arith, trim_right_lem s h.1, h.0)

trim_left_lem : (s : Text) → HasNoSpace s → trim_left s ≡ s
unfolding trim_left
trim_left_lem [] h = refl
trim_left_lem (c ∷ s) h = ground (arith, h.0)

pub trim_space_lem : (s : Text) → HasNoSpace s → trim_space s ≡ s
unfolding trim_space
trim_space_lem s h = ap trim_right (trim_left_lem s h) ∙ trim_right_lem s h
