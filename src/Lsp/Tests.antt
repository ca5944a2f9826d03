-- ===== src/Lsp/Tests.antt =====
-- Positions in a small text, and the theorem at an offset of it.
use kalua.Prelude.{◌≡◌, refl, [], ◌∷◌, ◌++◌, arith}
use kalua.Prelude.Text.{Text, bytes}
use kalua.Lsp.{index_feed, in_line, next_line, offset_from, byte_offset, pos_loop, pos_at}
use kalua.Lsp.RoundTrip.{byte_offset-pos_at}

abbrev two_lines : Text
two_lines = bytes "ab" ++ (10 ∷ (bytes "cd" ++ (10 ∷ [])))

second_line : pos_at two_lines 4 ≡ record { line = 1; character = 1 }
unfolding pos_at pos_loop
second_line = refl

-- A character beyond the end of its line is cut to it.
cut_to_line : byte_offset two_lines (record { line = 0; character = 9 }) ≡ 2
unfolding byte_offset offset_from in_line index_feed
cut_to_line = refl

beyond_last_line : byte_offset (bytes "ab") (record { line = 3; character = 0 }) ≡ 2
unfolding byte_offset offset_from next_line index_feed
beyond_last_line = refl

byte_offset-pos_at_example : byte_offset two_lines (pos_at two_lines 4) ≡ 4
byte_offset-pos_at_example = byte_offset-pos_at two_lines 4 (omega arith) (omega arith)
