-- ===== src/Printer.antt =====
-- internal/format/printer.go: the layout of the tokens of a script. The lexer is that of the
-- interpreter; a token comes with its source text and its line.
pub mod Layout
mod Tests
use kalua.Prelude.{
  ℕ, zero, suc, ◌+◌, ◌-◌, ◌≡◌, Bool, true, false, not, ◌&&◌, ◌||◌, List, [], ◌∷◌, ◌++◌, ltb, leb,
  ◌==◌, if◌then◌else◌,
}
use kalua.Prelude.Text.{Text, bytes, is_empty}

-- The types of tokens that the printer tells apart. A comment's type is none of the others.
pub data Kind : Type 0 where
  open_paren : Kind
  open_bracket : Kind
  open_brace : Kind
  close_paren : Kind
  close_bracket : Kind
  close_brace : Kind
  comma : Kind
  semicolon : Kind
  dot : Kind
  colon : Kind
  double_colon : Kind
  hash : Kind
  minus : Kind
  then_kw : Kind
  do_kw : Kind
  repeat_kw : Kind
  end_kw : Kind
  until_kw : Kind
  elseif_kw : Kind
  else_kw : Kind
  function_kw : Kind
  ident : Kind
  number : Kind
  string_lit : Kind
  true_kw : Kind
  false_kw : Kind
  nil_kw : Kind
  comment : Kind
  other : Kind

pub record Token : Type 0 where
  pub kind : Kind
  pub raw : Text
  pub line : ℕ

-- The fields of printer; of the previous token only the type is read.
pub record Printer : Type 0 where
  pub out : Text
  pub block_depth : ℕ
  pub bracket_depth : ℕ
  pub fn_parens : ℕ
  pub prev : Kind
  pub prev_minus_unary : Bool
  pub first : Bool
  pub last_line : ℕ

unfoldable pub is_operand_end : Kind → Bool
is_operand_end ident = true
is_operand_end number = true
is_operand_end string_lit = true
is_operand_end true_kw = true
is_operand_end false_kw = true
is_operand_end nil_kw = true
is_operand_end close_paren = true
is_operand_end close_bracket = true
is_operand_end close_brace = true
is_operand_end _ = false

unfoldable pub is_opener : Kind → Bool
is_opener open_brace = true
is_opener open_paren = true
is_opener open_bracket = true
is_opener then_kw = true
is_opener do_kw = true
is_opener repeat_kw = true
is_opener _ = false

unfoldable pub forced_newline : Kind → Bool
forced_newline end_kw = true
forced_newline else_kw = true
forced_newline elseif_kw = true
forced_newline until_kw = true
forced_newline _ = false

unfoldable pub suppress_blank : Kind → Bool
unfolding forced_newline
suppress_blank close_paren = true
suppress_blank close_bracket = true
suppress_blank close_brace = true
suppress_blank k = forced_newline k

-- The first switch of spaceNeeded.
unfoldable pub is_delimiter : Kind → Bool
is_delimiter comma = true
is_delimiter semicolon = true
is_delimiter close_paren = true
is_delimiter close_bracket = true
is_delimiter close_brace = true
is_delimiter dot = true
is_delimiter colon = true
is_delimiter double_colon = true
is_delimiter _ = false

-- The second switch, on the previous token; what follows is `rest`.
unfoldable pub after_prev : Kind → Bool → Bool → Bool
after_prev open_paren prev_minus_unary rest = false
after_prev open_bracket prev_minus_unary rest = false
after_prev open_brace prev_minus_unary rest = false
after_prev colon prev_minus_unary rest = false
after_prev dot prev_minus_unary rest = false
after_prev double_colon prev_minus_unary rest = false
after_prev hash prev_minus_unary rest = false
after_prev minus prev_minus_unary rest = not prev_minus_unary
after_prev _ prev_minus_unary rest = rest

abbrev pub is_function : Kind → Bool
is_function function_kw = true
is_function _ = false

-- The third switch: an opening bracket. After # and - the second one has returned.
unfoldable pub before_open : Kind → Kind → Bool
unfolding is_operand_end
before_open open_paren prev = not (is_operand_end prev || is_function prev)
before_open open_brace prev = not (is_operand_end prev || is_function prev)
before_open open_bracket prev = not (is_operand_end prev || is_function prev)
before_open _ prev = true

unfoldable pub space_needed : Kind → Kind → Bool → Bool
unfolding is_delimiter after_prev before_open
space_needed prev cur prev_minus_unary =
    if is_delimiter cur then false else after_prev prev prev_minus_unary (before_open cur prev)

abbrev pub dec : ℕ → ℕ
dec zero = zero
dec (suc n) = n

-- A `)` ends the parameters of a function and begins its body.
abbrev pub end_params : Printer → ℕ → Printer
end_params p zero = p
end_params p (suc n) = record p { fn_parens = n; block_depth = p.block_depth + 1 }

-- The switch before emit.
unfoldable pub adjust : Printer → Kind → Printer
adjust p then_kw = record p { block_depth = p.block_depth + 1 }
adjust p do_kw = record p { block_depth = p.block_depth + 1 }
adjust p repeat_kw = record p { block_depth = p.block_depth + 1 }
adjust p end_kw = record p { block_depth = dec p.block_depth }
adjust p until_kw = record p { block_depth = dec p.block_depth }
adjust p elseif_kw = record p { block_depth = dec p.block_depth }
adjust p else_kw = record p { block_depth = dec p.block_depth }
adjust p function_kw = record p { fn_parens = p.fn_parens + 1 }
adjust p open_paren = record p { bracket_depth = p.bracket_depth + 1 }
adjust p open_bracket = record p { bracket_depth = p.bracket_depth + 1 }
adjust p open_brace = record p { bracket_depth = p.bracket_depth + 1 }
adjust p close_paren = end_params (record p { bracket_depth = dec p.bracket_depth }) p.fn_parens
adjust p close_bracket = record p { bracket_depth = dec p.bracket_depth }
adjust p close_brace = record p { bracket_depth = dec p.bracket_depth }
adjust p _ = p

-- strings.Repeat("  ", n)
unfoldable pub indent : ℕ → Text
indent zero = []
indent (suc n) = 32 ∷ 32 ∷ indent n

unfoldable pub feeds : Text → ℕ
feeds [] = 0
feeds (c ∷ s) = (if c == 10 then 1 else 0) + feeds s

abbrev pub is_minus : Kind → Bool
is_minus minus = true
is_minus _ = false

-- What is written before the token.
unfoldable pub gap : Printer → Token → Text
unfolding forced_newline suppress_blank is_opener indent space_needed
gap p t =
    if p.first
    then []
    else if forced_newline t.kind || ltb p.last_line t.line
    then (if leb 2 (t.line - p.last_line) && (not (suppress_blank t.kind) && not (is_opener p.prev))
        then 10 ∷ []
        else [])
      ++ (10 ∷ indent (p.block_depth + p.bracket_depth))
    else if space_needed p.prev t.kind p.prev_minus_unary
    then 32 ∷ []
    else []

unfoldable pub emit : Printer → Token → Printer
unfolding gap feeds is_operand_end
emit p t = record {
  out = p.out ++ (gap p t ++ t.raw);
  block_depth = p.block_depth;
  bracket_depth = p.bracket_depth;
  fn_parens = p.fn_parens;
  prev = t.kind;
  prev_minus_unary = is_minus t.kind && not (is_operand_end p.prev);
  first = false;
  last_line = t.line + feeds t.raw;
}

-- The body of an else has the depth of that of its if.
abbrev pub after_else : Printer → Kind → Printer
after_else p else_kw = record p { block_depth = p.block_depth + 1 }
after_else p _ = p

unfoldable pub step : Printer → Token → Printer
unfolding adjust emit
step p t = after_else (emit (adjust p t.kind) t) t.kind

unfoldable pub steps : Printer → List Token → Printer
unfolding step
steps p [] = p
steps p (t ∷ toks) = steps (step p t) toks

abbrev pub new : Printer
new = record {
  out = [];
  block_depth = 0;
  bracket_depth = 0;
  fn_parens = 0;
  prev = other;
  prev_minus_unary = false;
  first = true;
  last_line = 0;
}

-- strings.TrimRight(out, "\n")
unfoldable pub trim_feeds : Text → Text
trim_feeds [] = []
trim_feeds (c ∷ s) = let rest = trim_feeds s in if is_empty rest && c == 10 then [] else c ∷ rest

unfoldable pub finish : Text → Text
unfolding trim_feeds
finish out = if is_empty (trim_feeds out) then [] else trim_feeds out ++ (10 ∷ [])

unfoldable pub print : List Token → Text
unfolding steps finish
print toks = finish (steps new toks).out
