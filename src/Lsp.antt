-- ===== src/Lsp.antt =====
-- internal/lsp/feature.go: byteOffset and posAt, between the offsets of a text and the positions of the
-- protocol. The loops go on with the rest of the text, and its offset is passed along.
pub mod RoundTrip
mod Tests
use kalua.Prelude.{
  ℕ, zero, suc, ◌+◌, ◌-◌, ◌%◌, ◌^◌, Bool, true, false, Option, none, some, [], ◌∷◌, ltb, ◌==◌,
  if◌then◌else◌, length,
}
use kalua.Prelude.Text.{Text}

-- protocol.Position: two numbers of 32 bits.
pub record Position : Type 0 where
  pub line : ℕ
  pub character : ℕ

abbrev pub two_32 : ℕ
two_32 = 2 ^ 32

-- strings.IndexByte(s, '\n'), with what stands behind the byte.
abbrev pub shift : Option (ℕ × Text) → Option (ℕ × Text)
shift none = none
shift (some (o, rest)) = some (o + 1, rest)

unfoldable pub index_feed : Text → Option (ℕ × Text)
index_feed [] = none
index_feed (c ∷ s) = let more = shift (index_feed s) in if c == 10 then some (0, s) else more

abbrev pub line_end : ℕ → Text → Option (ℕ × Text) → ℕ
line_end idx s none = idx + length s
line_end idx s (some (o, rest)) = idx + o

abbrev pub clamp : ℕ → ℕ → ℕ
clamp off end_of_line = if ltb end_of_line off then end_of_line else off

-- The offset of a character in the line that begins at idx.
unfoldable pub in_line : Text → ℕ → ℕ → ℕ
unfolding index_feed
in_line s idx character = clamp (idx + character) (line_end idx s (index_feed s))

-- After the search for a line feed: without one, the end of the text.
unfoldable pub next_line : (Text → ℕ → ℕ → ℕ) → Text → ℕ → ℕ → Option (ℕ × Text) → ℕ
next_line go_on s idx character none = idx + length s
next_line go_on s idx character (some (o, rest)) = go_on rest (idx + (o + 1)) character

unfoldable pub offset_from : ℕ → Text → ℕ → ℕ → ℕ
unfolding in_line index_feed next_line
offset_from zero s idx character = in_line s idx character
offset_from (suc n) [] idx character = in_line [] idx character
offset_from (suc n) (c ∷ s) idx character =
    next_line (offset_from n) (c ∷ s) idx character (index_feed (c ∷ s))

unfoldable pub byte_offset : Text → Position → ℕ
unfolding offset_from
byte_offset s p = offset_from p.line s 0 p.character

-- The loop over the bytes before the offset: the line and where it starts. `left` bytes are left.
unfoldable pub pos_loop : ℕ → Text → ℕ → ℕ → ℕ → ℕ × ℕ
pos_loop zero s i line line_start = (line, line_start)
pos_loop (suc left) [] i line line_start = (line, line_start)
pos_loop (suc left) (c ∷ s) i line line_start =
    let next = pos_loop left s (i + 1) (line + 1) (i + 1) in
    let same = pos_loop left s (i + 1) line line_start in if c == 10 then next else same

unfoldable pub pos_at : Text → ℕ → Position
unfolding pos_loop
pos_at s off =
    let at_most = clamp off (length s) in
    let r = pos_loop at_most s 0 0 0 in
    record { line = r.0 % two_32; character = (at_most - r.1) % two_32 }
