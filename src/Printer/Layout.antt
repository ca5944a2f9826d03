-- ===== src/Printer/Layout.antt =====
-- What the printer writes: the texts of the tokens with white space between them.
use kalua.Prelude.{
  ℕ, zero, suc, ◌+◌, ◌-◌, ◌≡◌, refl, sym, ap, ◌∙◌, inl, inr, Bool, true, false, not, ◌&&◌, ◌||◌,
  List, [], ◌∷◌, ◌++◌, append-nil, append_assoc, ltb, leb, ◌==◌, if◌then◌else◌, arith, Bool-cases,
  All,
}
use mathlib.Core.Path.{subst}
use kalua.Prelude.Text.{Text, bytes, is_empty}
use kalua.Printer.{
  Kind, minus, Token, Printer, gap, indent, feeds, emit, adjust, after_else, end_params, step,
  steps, new, trim_feeds, finish, print, is_operand_end, space_needed, is_delimiter, after_prev,
  forced_newline, suppress_blank, is_opener,
}

-- White space that the printer writes: spaces and line feeds.
abbrev pub IsBlank : Text → Type 0
IsBlank s = All (λ c. (c == 32 || c == 10) ≡ true) s

-- The texts of the tokens in their order, each with white space before it.
pub data Laid : List Token → Text → Type 0 where
  no_tokens : Laid [] []
  laid :
      (blank : Text) (t : Token) (toks : List Token) (rest : Text)
      → IsBlank blank
      → Laid toks rest
      → Laid (t ∷ toks) (blank ++ (t.raw ++ rest))

IsBlank-append : (s t : Text) → IsBlank s → IsBlank t → IsBlank (s ++ t)
IsBlank-append [] t v w = w
IsBlank-append (c ∷ s) t v w = (v.0, IsBlank-append s t v.1 w)

IsBlank-indent : (n : ℕ) → IsBlank (indent n)
unfolding indent
IsBlank-indent zero = tt
IsBlank-indent (suc n) = (refl, (refl, IsBlank-indent n))

if_IsBlank : (b : Bool) (s t : Text) → IsBlank s → IsBlank t → IsBlank (if b then s else t)
if_IsBlank true s t v w = v
if_IsBlank false s t v w = w

IsBlank-gap : (p : Printer) (t : Token) → IsBlank (gap p t)
unfolding gap
IsBlank-gap p t = if_IsBlank p.first [] _ tt (
    if_IsBlank (forced_newline t.kind || ltb p.last_line t.line) _ _
      (IsBlank-append _ (10 ∷ indent (p.block_depth + p.bracket_depth))
        (if_IsBlank
          (leb 2 (t.line - p.last_line) && (not (suppress_blank t.kind) && not (is_opener p.prev)))
          (10 ∷ []) [] (refl, tt) tt)
        (refl, IsBlank-indent (p.block_depth + p.bracket_depth)))
      (if_IsBlank (space_needed p.prev t.kind p.prev_minus_unary) (32 ∷ []) [] (refl, tt) tt))

out-end_params : (p : Printer) (n : ℕ) → (end_params p n).out ≡ p.out
out-end_params p zero = refl
out-end_params p (suc n) = refl

regroup : (o b r s : Text) → (o ++ (b ++ r)) ++ s ≡ o ++ (b ++ (r ++ s))
regroup o b r s = append_assoc o (b ++ r) s ∙ ap (λ t. o ++ t) (append_assoc b r s)

out-adjust : (p : Printer) (k : Kind) → (adjust p k).out ≡ p.out
unfolding adjust
out-adjust p Kind.open_paren = refl
out-adjust p Kind.open_bracket = refl
out-adjust p Kind.open_brace = refl
out-adjust p Kind.close_paren = out-end_params _ p.fn_parens
out-adjust p Kind.close_bracket = refl
out-adjust p Kind.close_brace = refl
out-adjust p Kind.comma = refl
out-adjust p Kind.semicolon = refl
out-adjust p Kind.dot = refl
out-adjust p Kind.colon = refl
out-adjust p Kind.double_colon = refl
out-adjust p Kind.hash = refl
out-adjust p Kind.minus = refl
out-adjust p Kind.then_kw = refl
out-adjust p Kind.do_kw = refl
out-adjust p Kind.repeat_kw = refl
out-adjust p Kind.end_kw = refl
out-adjust p Kind.until_kw = refl
out-adjust p Kind.elseif_kw = refl
out-adjust p Kind.else_kw = refl
out-adjust p Kind.function_kw = refl
out-adjust p Kind.ident = refl
out-adjust p Kind.number = refl
out-adjust p Kind.string_lit = refl
out-adjust p Kind.true_kw = refl
out-adjust p Kind.false_kw = refl
out-adjust p Kind.nil_kw = refl
out-adjust p Kind.comment = refl
out-adjust p Kind.other = refl

out-after_else : (p : Printer) (k : Kind) → (after_else p k).out ≡ p.out
out-after_else p Kind.open_paren = refl
out-after_else p Kind.open_bracket = refl
out-after_else p Kind.open_brace = refl
out-after_else p Kind.close_paren = refl
out-after_else p Kind.close_bracket = refl
out-after_else p Kind.close_brace = refl
out-after_else p Kind.comma = refl
out-after_else p Kind.semicolon = refl
out-after_else p Kind.dot = refl
out-after_else p Kind.colon = refl
out-after_else p Kind.double_colon = refl
out-after_else p Kind.hash = refl
out-after_else p Kind.minus = refl
out-after_else p Kind.then_kw = refl
out-after_else p Kind.do_kw = refl
out-after_else p Kind.repeat_kw = refl
out-after_else p Kind.end_kw = refl
out-after_else p Kind.until_kw = refl
out-after_else p Kind.elseif_kw = refl
out-after_else p Kind.else_kw = refl
out-after_else p Kind.function_kw = refl
out-after_else p Kind.ident = refl
out-after_else p Kind.number = refl
out-after_else p Kind.string_lit = refl
out-after_else p Kind.true_kw = refl
out-after_else p Kind.false_kw = refl
out-after_else p Kind.nil_kw = refl
out-after_else p Kind.comment = refl
out-after_else p Kind.other = refl

out-step : (p : Printer) (t : Token) → (step p t).out ≡ p.out ++ (gap (adjust p t.kind) t ++ t.raw)
unfolding step emit
out-step p t =
    out-after_else (emit (adjust p t.kind) t) t.kind
    ∙ ap (λ o. o ++ (gap (adjust p t.kind) t ++ t.raw)) (out-adjust p t.kind)

steps-Laid :
    (toks : List Token) (p : Printer) → (s : Text) × ((steps p toks).out ≡ p.out ++ s) × Laid toks s
unfolding steps
steps-Laid [] p = ([], sym (append-nil p.out), no_tokens)
steps-Laid (t ∷ toks) p =
    let (s, e, l) = steps-Laid toks (step p t) in
    let blank = gap (adjust p t.kind) t in
    (
      blank ++ (t.raw ++ s),
      e ∙ (ap (λ o. o ++ s) (out-step p t) ∙ regroup p.out blank t.raw s),
      laid blank t toks s (IsBlank-gap (adjust p t.kind) t) l,
    )

is_empty-nil : (s : Text) → is_empty s ≡ true → s ≡ []
is_empty-nil [] e = refl
is_empty-nil (c ∷ s) e = cc

-- A token of a `-` on a line.
abbrev pub minus_at : ℕ → Token
minus_at line = record { kind = minus; raw = b'-' ∷ []; line = line }

unary_gap :
    (p : Printer) (line : ℕ)
    → is_operand_end p.prev ≡ false
    → gap (emit p (minus_at line)) (minus_at line) ≡ []
unfolding gap emit feeds forced_newline space_needed is_delimiter after_prev
unary_gap p line h = let later : ltb (line + 0) line ≡ false = ground arith in rw (later, h) refl

-- What TrimRight takes away.
trim_feeds-append :
    (s : Text) → (feeds : Text) × (s ≡ trim_feeds s ++ feeds) × All (λ c. (c == 10) ≡ true) feeds
unfolding trim_feeds
trim_feeds-append [] = ([], refl, tt)
trim_feeds-append (c ∷ s) =
    let (f, e, a) = trim_feeds-append s in
    elim (Bool-cases (is_empty (trim_feeds s) && c == 10)) [
      | inl b ↦
          let last : is_empty (trim_feeds s) ≡ true = ground arith in
          let feed : (c == 10) ≡ true = ground arith in
          rw b (
            c ∷ f,
            ap (λ r. c ∷ r) (e ∙ ap (λ t. t ++ f) (is_empty-nil (trim_feeds s) last)),
            (feed, a),
          )
      | inr b ↦ rw b (f, ap (λ r. c ∷ r) e, a)
    ]

abbrev AreFeeds : Text → Type 0
AreFeeds s = All (λ c. (c == 10) ≡ true) s

-- The printer writes the texts of all tokens in their order, with nothing but spaces and line feeds
-- before each; the line feeds at the end become one, if anything else is left.
pub print-Laid :
    (toks : List Token)
    → (core : Text) × (feeds : Text) × Laid toks (core ++ feeds)
      × All (λ c. (c == 10) ≡ true) feeds
      × (print toks ≡ (if is_empty core then [] else core ++ (10 ∷ [])))
unfolding print finish
print-Laid toks =
    let (s, e, l) = steps-Laid toks new in
    let (f, g, a) = trim_feeds-append s in (trim_feeds s, f, subst (Laid toks) g l, a, ap finish e)

-- Where two `-` follow on a line what does not end an operand, the printer writes them with no space
-- between them, so that they begin a comment.
pub double_minus :
    (p : Printer) (line : ℕ)
    → is_operand_end p.prev ≡ false
    → (step (step p (minus_at line)) (minus_at line)).out
      ≡ p.out ++ (gap p (minus_at line) ++ bytes "--")
unfolding step adjust emit
double_minus p line h =
    let o = p.out ++ (gap p (minus_at line) ++ bytes "-") in
    let none : gap (emit p (minus_at line)) (minus_at line) ≡ [] = unary_gap p line h in
    rw none (
      append_assoc p.out (gap p (minus_at line) ++ bytes "-") (bytes "-")
      ∙ ap (λ t. p.out ++ t) (append_assoc (gap p (minus_at line)) (bytes "-") (bytes "-")))
