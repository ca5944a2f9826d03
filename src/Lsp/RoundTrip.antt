-- ===== src/Lsp/RoundTrip.antt =====
-- An offset of a text is the offset of its position.
use kalua.Prelude.{
  ℕ, zero, suc, ◌+◌, ◌-◌, ◌%◌, ◌<◌, ◌≤◌, ◌≡◌, refl, ap, ◌∙◌, inl, inr, false, Option, none, some,
  [], ◌∷◌, ◌++◌, append_assoc, ◌==◌, length, length-append, arith, Bool-cases, All,
}
use kalua.Prelude.Text.{Text}
use kalua.Lsp.{
  two_32, shift, index_feed, next_line, line_end, clamp, in_line, offset_from, byte_offset,
  pos_loop, pos_at,
}

abbrev HasNoFeed : Text → Type 0
HasNoFeed s = All (λ c. (c == 10) ≡ false) s

index_feed-append : (p s : Text) → HasNoFeed p → index_feed (p ++ 10 ∷ s) ≡ some (length p, s)
unfolding index_feed
index_feed-append [] s v = refl
index_feed-append (c ∷ p) s v =
    rw (v.0, index_feed-append p s v.1) (ap (λ (k : ℕ). some (k, s)) (omega arith))

index_feed-rest : (c : ℕ) (s : Text) → (c == 10) ≡ false → index_feed (c ∷ s) ≡ shift (index_feed s)
unfolding index_feed
index_feed-rest c s e = rw e refl

line_end-shift :
    (idx c : ℕ) (s : Text) (o : Option (ℕ × Text))
    → line_end idx (c ∷ s) (shift o) ≡ line_end (idx + 1) s o
line_end-shift idx c s none = omega arith
line_end-shift idx c s (some (o, rest)) = omega arith

line_end-start : (s : Text) (idx : ℕ) (o : Option (ℕ × Text)) → idx + 0 ≤ line_end idx s o
line_end-start s idx none = omega arith
line_end-start s idx (some (o, rest)) = omega arith

-- A line goes on at least to the bytes that are no line feeds.
le-line_end :
    (p s : Text) (idx : ℕ)
    → HasNoFeed p
    → idx + length p ≤ line_end idx (p ++ s) (index_feed (p ++ s))
le-line_end [] s idx v = line_end-start s idx (index_feed s)
le-line_end (c ∷ p) s idx v =
    rw (index_feed-rest c (p ++ s) v.0, line_end-shift idx c (p ++ s) (index_feed (p ++ s)))
      (omega (arith, le-line_end p s (idx + 1) v.1))

in_line-append :
    (p s : Text) (idx : ℕ) → HasNoFeed p → in_line (p ++ s) idx (length p) ≡ idx + length p
unfolding in_line
in_line-append p s idx v = ground (arith, le-line_end p s idx v)

offset_from-feed :
    (l : ℕ) (p s : Text) (idx ch : ℕ)
    → HasNoFeed p
    → offset_from (suc l) (p ++ 10 ∷ s) idx ch ≡ offset_from l s (idx + (length p + 1)) ch
unfolding offset_from
offset_from-feed l [] s idx ch v = refl
offset_from-feed l (c ∷ p) s idx ch v =
    ap (next_line (offset_from l) (c ∷ (p ++ 10 ∷ s)) idx ch) (index_feed-append (c ∷ p) s v)

HasNoFeed-snoc : (p : Text) (c : ℕ) → HasNoFeed p → (c == 10) ≡ false → HasNoFeed (p ++ c ∷ [])
HasNoFeed-snoc [] c v e = (e, tt)
HasNoFeed-snoc (x ∷ p) c v e = (v.0, HasNoFeed-snoc p c v.1 e)

-- The loop in a line that begins at b, after the bytes p of it, at i.
Found : ℕ → Text → Text → ℕ → ℕ → ℕ → Type 0
Found left p s b line i =
    let r = pos_loop left s i line b in
    (l : ℕ) × (r.0 ≡ line + l)
    × (l ≤ left)
    × (r.1 ≤ i + left)
    × (offset_from l (p ++ s) b (i + left - r.1) ≡ i + left)

found :
    (left : ℕ) (p s : Text) (b line i : ℕ)
    → HasNoFeed p
    → left ≤ length s
    → i ≡ b + length p
    → Found left p s b line i
unfolding Found pos_loop offset_from
found zero p s b line i v h e =
    let ch : i + 0 - b ≡ length p = omega arith in
    (0, omega arith, omega arith, omega arith, rw ch (in_line-append p s b v ∙ omega arith))
found (suc left) p [] b line i v h e = absurd (omega arith)
found (suc left) p (c ∷ s) b line i v h e = elim (Bool-cases (c == 10)) [
  | inl f ↦
      let (l, e0, e1, e2, e3) =
        found left [] s (i + 1) (line + 1) (i + 1) tt (omega arith) (omega arith) in
      let r = pos_loop left s (i + 1) (line + 1) (i + 1) in
      let feed : c ≡ 10 = ground arith in
      let at : b + (length p + 1) ≡ i + 1 = omega arith in
      let far : i + suc left ≡ i + 1 + left = omega arith in
      rw (f, feed, far)
        (
          suc l,
          omega (arith, e0),
          omega (arith, e1),
          e2,
          offset_from-feed l p s b (i + 1 + left - r.1) v ∙ rw at e3,
        )
  | inr f ↦
      let (l, e0, e1, e2, e3) =
        found left (p ++ c ∷ []) s b line (i + 1) (HasNoFeed-snoc p c v f) (omega arith)
          (omega (arith, length-append p (c ∷ []))) in
      let r = pos_loop left s (i + 1) line b in
      let far : i + suc left ≡ i + 1 + left = omega arith in
      rw (f, far) (l, e0, omega (arith, e1), e2, rw (← append_assoc p (c ∷ []) s) e3)
]

-- In a text of fewer than 2^32 bytes, every offset up to the length is the offset of its position.
pub byte_offset-pos_at :
    (s : Text) (off : ℕ) → off ≤ length s → length s < two_32 → byte_offset s (pos_at s off) ≡ off
unfolding byte_offset pos_at Found
byte_offset-pos_at s off h b =
    let (l, e0, e1, e2, e3) = found off [] s 0 0 0 tt h (omega arith) in
    let r = pos_loop off s 0 0 0 in
    let kept : clamp off (length s) ≡ off = ground arith in
    let line : r.0 % two_32 ≡ l = omega (arith, e0, e1) in
    let character : (off - r.1) % two_32 ≡ 0 + off - r.1 = omega arith in
    rw (kept, line, character) (e3 ∙ omega arith)

-- An offset beyond the end is cut to the length of the text.
pub pos_at_beyond : (s : Text) (off : ℕ) → length s ≤ off → pos_at s off ≡ pos_at s (length s)
unfolding pos_at
pos_at_beyond s off h =
    let a : clamp off (length s) ≡ length s = ground arith in
    let b : clamp (length s) (length s) ≡ length s = ground arith in rw (a, b) refl
