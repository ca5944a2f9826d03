-- ===== src/Printer/Tests.antt =====
-- Runs of the printer, and the theorems at inputs that meet their hypotheses.
use kalua.Prelude.{ℕ, ◌≡◌, refl, true, false, List, [], ◌∷◌, ◌++◌, All, ◌==◌, if◌then◌else◌}
use kalua.Prelude.Text.{Text, bytes, is_empty}
use kalua.Printer.{
  Kind, Token, is_operand_end, is_opener, forced_newline, suppress_blank, is_delimiter, after_prev,
  before_open, space_needed, adjust, indent, feeds, gap, emit, step, steps, new, trim_feeds, finish,
  print,
}
use kalua.Printer.Layout.{Laid, print-Laid, minus_at, double_minus}

abbrev token : Kind → Text → ℕ → Token
token k raw line = record { kind = k; raw = raw; line = line }

-- if a then f ( x ) end, with the call on a line of its own
abbrev script : List Token
script =
    token Kind.other (bytes "if") 1
    ∷ token Kind.ident (bytes "a") 1
    ∷ token Kind.then_kw (bytes "then") 1
    ∷ token Kind.ident (bytes "f") 3
    ∷ token Kind.open_paren (bytes "(") 3
    ∷ token Kind.ident (bytes "x") 3
    ∷ token Kind.close_paren (bytes ")") 3
    ∷ token Kind.end_kw (bytes "end") 3
    ∷ []

script_printed :
    print script ≡ bytes "if a then" ++ (10 ∷ (bytes "  f(x)" ++ (10 ∷ (bytes "end" ++ (10 ∷ [])))))
unfolding print steps step adjust emit gap feeds indent is_operand_end is_opener forced_newline
    suppress_blank is_delimiter after_prev before_open space_needed trim_feeds finish
script_printed = refl

-- return - - x is printed as a return and a comment.
commented :
    print (
      token Kind.other (bytes "return") 1
      ∷ minus_at 1
      ∷ minus_at 1
      ∷ token Kind.ident (bytes "x") 1
      ∷ [])
    ≡ bytes "return --x" ++ (10 ∷ [])
unfolding print steps step adjust emit gap feeds is_operand_end forced_newline is_delimiter
    after_prev before_open space_needed trim_feeds finish
commented = refl

print-Laid_example :
    (core : Text) × (feeds : Text) × Laid script (core ++ feeds)
    × All (λ c. (c == 10) ≡ true) feeds
    × (print script ≡ (if is_empty core then [] else core ++ (10 ∷ [])))
print-Laid_example = print-Laid script

no_operand : is_operand_end Kind.other ≡ false
unfolding is_operand_end
no_operand = refl

double_minus_example :
    (step (step new (minus_at 1)) (minus_at 1)).out ≡ [] ++ (gap new (minus_at 1) ++ bytes "--")
double_minus_example = double_minus new 1 no_operand
