-- ===== src/Klog/Quote.antt =====
-- quoteJSON of internal/klog/klog.go. It ranges over the runes of a string, so each byte that is not
-- part of a UTF-8 encoding becomes U+FFFD.
use kalua.Prelude.{
  ℕ, zero, suc, ◌+◌, ◌-◌, ◌≤◌, Bool, ◌&&◌, [], ◌∷◌, ◌++◌, arith, length, length-append, length-take,
  length-drop, take, drop, leb, ltb, ◌==◌, if◌then◌else◌,
}
use kalua.Prelude.Text.{Text}

abbrev between : ℕ → ℕ → ℕ → Bool
between lo hi c = leb lo c && leb c hi

abbrev is_cont : ℕ → Bool
is_cont = between 128 191

-- The number of bytes of the encoding that begins with `c`, given the bytes that follow; 0 if none
-- does (unicode/utf8).
width2 : ℕ → Text → ℕ
width2 c [] = 0
width2 c (d ∷ s) = if between 194 223 c && is_cont d then 2 else 0

abbrev second_of_three : ℕ → ℕ → Bool
second_of_three c d =
    if c == 224
    then between 160 191 d
    else if c == 237
    then between 128 159 d
    else between 225 239 c && is_cont d

width3 : ℕ → Text → ℕ
width3 c [] = 0
width3 c (d ∷ []) = 0
width3 c (d ∷ e ∷ s) = if second_of_three c d && is_cont e then 3 else 0

abbrev second_of_four : ℕ → ℕ → Bool
second_of_four c d =
    if c == 240
    then between 144 191 d
    else if c == 244
    then between 128 143 d
    else between 241 243 c && is_cont d

width4 : ℕ → Text → ℕ
width4 c [] = 0
width4 c (d ∷ []) = 0
width4 c (d ∷ e ∷ []) = 0
width4 c (d ∷ e ∷ f ∷ s) = if second_of_four c d && (is_cont e && is_cont f) then 4 else 0

unfoldable pub rune_width : Text → ℕ
unfolding width2 width3 width4
rune_width [] = 0
rune_width (c ∷ s) =
    if ltb c 128
    then 1
    else if width2 c s == 2
    then 2
    else if width3 c s == 3
    then 3
    else width4 c s

-- The cases of the switch for one-byte runes; the others are copied.
unfoldable pub escape : ℕ → Text
escape c =
    if c == 34
    then 92 ∷ 34 ∷ []
    else if c == 92
    then 92 ∷ 92 ∷ []
    else if c == 10
    then 92 ∷ 110 ∷ []
    else if c == 13
    then 92 ∷ 114 ∷ []
    else if c == 9
    then 92 ∷ 116 ∷ []
    else c ∷ []

-- One rune, of the given width, at the front of `c ∷ s`.
quote_rune : ℕ → ℕ → Text → Text
unfolding escape
quote_rune zero c s = 239 ∷ 191 ∷ 189 ∷ []
quote_rune (suc zero) c s = escape c
quote_rune (suc (suc w)) c s = c ∷ take (suc w) s

-- `for _, r := range s`; one unit of fuel for each byte is enough.
unfoldable pub quote_runes : ℕ → Text → Text
unfolding quote_rune
quote_runes zero s = []
quote_runes (suc f) [] = []
quote_runes (suc f) (c ∷ s) =
    let w = rune_width (c ∷ s) in quote_rune w c s ++ quote_runes f (drop (w - 1) s)

unfoldable pub quote_json : Text → Text
unfolding quote_runes
quote_json s = 34 ∷ quote_runes (length s) s ++ 34 ∷ []

rune_width-le : (s : Text) → rune_width s ≤ length s
unfolding rune_width
rune_width-le [] = omega arith
rune_width-le (c ∷ []) = ground arith
rune_width-le (c ∷ d ∷ []) = ground arith
rune_width-le (c ∷ d ∷ e ∷ []) = ground arith
rune_width-le (c ∷ d ∷ e ∷ f ∷ s) = ground arith

length-quote_rune :
    (w c : ℕ) (s : Text) → w ≤ suc (length s) → suc (w - 1) ≤ length (quote_rune w c s)
unfolding quote_rune
length-quote_rune zero c s h = omega arith
length-quote_rune (suc zero) c s h = ground arith
length-quote_rune (suc (suc w)) c s h = omega (arith, length-take (suc w) s)

-- Enough fuel: a byte of the text gives at least one byte of the output.
length-quote_runes : (f : ℕ) (s : Text) → length s ≤ f → length s ≤ length (quote_runes f s)
unfolding quote_runes
length-quote_runes zero s h = omega arith
length-quote_runes (suc f) [] h = omega arith
length-quote_runes (suc f) (c ∷ s) h =
    let w = rune_width (c ∷ s) in
    omega (
      arith,
      rune_width-le (c ∷ s),
      length-quote_rune w c s (rune_width-le (c ∷ s)),
      length-append (quote_rune w c s) (quote_runes f (drop (w - 1) s)),
      length-quote_runes f (drop (w - 1) s) (omega (arith, length-drop (w - 1) s)),
      length-drop (w - 1) s,
    )

pub length-quote_json : (s : Text) → length s + 2 ≤ length (quote_json s)
unfolding quote_json
length-quote_json s = omega (
  arith,
  length-append (quote_runes (length s) s) (34 ∷ []),
  length-quote_runes (length s) s (omega arith),
)
