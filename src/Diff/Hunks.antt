-- ===== src/Diff/Hunks.antt =====
-- The headers of the hunks: the ranges that they name.
use kalua.Prelude.{
  ℕ, suc, ◌+◌, ◌-◌, ◌<◌, ◌≤◌, ◌≡◌, refl, sym, ap, ◌∙◌, inl, inr, Bool, true, false, List, [], ◌∷◌,
  ◌++◌, map, append_assoc, ◌==◌, if◌then◌else◌, arith, Bool-cases, All, length, take, drop,
  take-append_length,
}
use mathlib.Core.Path.{subst}
use kalua.Prelude.Text.{Text}
use kalua.Diff.{
  Dline, Kind, keep, add, del, on_kind, tail, table, walk, dlines, close_run, runs, widen, a_range,
  b_range, count,
}
use kalua.Diff.Script.{olds, news, walk-cases, dlines-olds-news}

-- One side of the lines: those that stand in it, with their numbers.
abbrev NumberOf : Bool → ℕ → ℕ → Type 0
NumberOf true i n = n ≡ i + 1
NumberOf false i n = n ≡ 0

abbrev after : Bool → ℕ → ℕ
after true i = i + 1
after false i = i

number-true : (b : Bool) (i n : ℕ) → b ≡ true → NumberOf b i n → n ≡ i + 1
number-true true i n e v = v
number-true false i n e v = cc

number-false : (b : Bool) (i n : ℕ) → b ≡ false → NumberOf b i n → n ≡ 0
number-false true i n e v = cc
number-false false i n e v = v

widen_next : (s i n : ℕ) → 0 < s → s ≤ i → n ≡ i + 1 → widen (s, i) n ≡ (s, i + 1)
unfolding widen
widen_next s i n p q e = rw e (ground arith)

widen_first : (i n : ℕ) → n ≡ i + 1 → widen (0, 0) n ≡ (i + 1, i + 1)
unfolding widen
widen_first i n e = rw e (ground arith)

widen_zero : (s i n : ℕ) → n ≡ 0 → widen (s, i) n ≡ (s, i)
unfolding widen
widen_zero s i n e = rw e refl

pair_eq : (s i k : ℕ) → k ≡ 0 → ◌≡◌ {A = ℕ × ℕ} (s, i) (s, i + k)
pair_eq s i k e = rw e (ground arith)

-- The range of no number, or of the numbers from i + 1 on.
abbrev fresh : ℕ → ℕ → ℕ × ℕ
fresh i k = if k == 0 then (0, 0) else (i + 1, i + k)

fresh_suc : (i m k : ℕ) → k ≡ suc m → ◌≡◌ {A = ℕ × ℕ} (i + 1, i + 1 + m) (fresh i k)
fresh_suc i m k e = rw e (ground arith)

-- What the range of a hunk has to be: it counts the lines of the run and names them in the text.
abbrev pub IsRange : List Text → List Text → ℕ × ℕ → Type 0
IsRange text run r = (count r ≡ length run) × (take (count r) (drop (r.0 - 1) text) ≡ run)

drop-append_length : (xs ys : List Text) → drop (length xs) (xs ++ ys) ≡ ys
drop-append_length [] ys = refl
drop-append_length (x ∷ xs) ys = drop-append_length xs ys

count-pos : (i k : ℕ) → count (i + 1, i + suc k) ≡ suc k
unfolding count
count-pos i k = ground arith

fresh-pos : (i k : ℕ) → fresh i (suc k) ≡ (i + 1, i + suc k)
fresh-pos i k = ground arith

fresh-IsRange :
    (front run back : List Text)
    → IsRange (front ++ (run ++ back)) run (fresh (length front) (length run))
unfolding count
fresh-IsRange front [] back = (refl, refl)
fresh-IsRange front (x ∷ run) back =
    let f : length front + 1 - 1 ≡ length front = omega arith in
    rw
      (
        fresh-pos (length front) (length run),
        count-pos (length front) (length run),
        f,
        drop-append_length front (x ∷ (run ++ back)),
      )
      (refl, take-append_length (x ∷ run) back)

module _ (num : Dline → ℕ) (has : Kind → Bool) where
  side : List Dline → List Text
  side [] = []
  side (d ∷ dl) = let rest = side dl in if has d.kind then d.text ∷ rest else rest

  range : ℕ × ℕ → List Dline → ℕ × ℕ
  range r [] = r
  range r (d ∷ run) = range (widen r (num d)) run

  -- The lines of the side are numbered from i + 1 on, and the others have no number.
  abbrev Numbered : ℕ → List Dline → Type 0
  Numbered i [] = Unit {0}
  Numbered i (d ∷ dl) = NumberOf (has d.kind) i (num d) × Numbered (after (has d.kind) i) dl

  no_side : length (side []) ≡ 0
  unfolding side
  no_side = refl

  side-append : (xs ys : List Dline) → side (xs ++ ys) ≡ side xs ++ side ys
  unfolding side
  side-append [] ys = refl
  side-append (d ∷ xs) ys = ground (arith, side-append xs ys)

  Numbered-append :
      (i : ℕ) (xs ys : List Dline)
      → Numbered i (xs ++ ys)
      → Numbered i xs × Numbered (i + length (side xs)) ys
  unfolding side
  Numbered-append i [] ys v = (tt, subst (λ k. Numbered k ys) (omega arith) v)
  Numbered-append i (d ∷ xs) ys v =
      let r = Numbered-append (after (has d.kind) i) xs ys v.1 in
      ((v.0, r.0), subst (λ k. Numbered k ys) (ground arith) r.1)

  side-has : (d : Dline) (run : List Dline) → has d.kind ≡ true → side (d ∷ run) ≡ d.text ∷ side run
  unfolding side
  side-has d run e = rw e refl

  side-lacks : (d : Dline) (run : List Dline) → has d.kind ≡ false → side (d ∷ run) ≡ side run
  unfolding side
  side-lacks d run e = rw e refl

  Numbered-rest :
      (i : ℕ) (d : Dline) (run : List Dline) {b : Bool}
      → has d.kind ≡ b
      → Numbered i (d ∷ run)
      → Numbered (after b i) run
  Numbered-rest i d run e v = subst (λ c. Numbered (after c i) run) e v.1

  range_started :
      (run : List Dline) (s i : ℕ)
      → 0 < s
      → s ≤ i
      → Numbered i run
      → range (s, i) run ≡ (s, i + length (side run))
  unfolding range
  range_started [] s i p q v = pair_eq s i (length (side [])) (no_side)
  range_started (d ∷ run) s i p q v = elim (Bool-cases (has d.kind)) [
    | inl e ↦
        ap (λ r. range r run)
          (widen_next s i (num d) p q (number-true (has d.kind) i (num d) e v.0))
        ∙ range_started run s (i + 1) p (omega arith) (Numbered-rest i d run e v)
        ∙ ap (λ (k : ℕ). (s, k)) (omega (arith, ap length (side-has d run e)))
    | inr e ↦
        ap (λ r. range r run) (widen_zero s i (num d) (number-false (has d.kind) i (num d) e v.0))
        ∙ range_started run s i p q (Numbered-rest i d run e v)
        ∙ ap (λ (k : ℕ). (s, k)) (omega (arith, ap length (side-lacks d run e)))
  ]

  range_fresh :
      (run : List Dline) (i : ℕ) → Numbered i run → range (0, 0) run ≡ fresh i (length (side run))
  unfolding range
  range_fresh [] i v = rw no_side refl
  range_fresh (d ∷ run) i v = elim (Bool-cases (has d.kind)) [
    | inl e ↦
        ap (λ r. range r run) (widen_first i (num d) (number-true (has d.kind) i (num d) e v.0))
        ∙ range_started run (i + 1) (i + 1) (omega arith) (omega arith) (Numbered-rest i d run e v)
        ∙ fresh_suc i (length (side run)) (length (side (d ∷ run))) (ap length (side-has d run e))
    | inr e ↦
        ap (λ r. range r run) (widen_zero 0 0 (num d) (number-false (has d.kind) i (num d) e v.0))
        ∙ range_fresh run i (Numbered-rest i d run e v)
        ∙ ap (fresh i) (ap length (sym (side-lacks d run e)))
  ]

  segment-IsRange :
      (front run back : List Dline)
      → Numbered 0 (front ++ (run ++ back))
      → IsRange (side (front ++ (run ++ back))) (side run) (range (0, 0) run)
  segment-IsRange front run back v =
      let n = Numbered-append 0 front (run ++ back) v in
      let m = Numbered-append (0 + length (side front)) run back n.1 in
      let r : range (0, 0) run ≡ fresh (length (side front)) (length (side run)) =
        range_fresh run (length (side front)) (subst (λ k. Numbered k run) (omega arith) m.0) in
      rw (r, side-append front (run ++ back), side-append run back)
        (fresh-IsRange (side front) (side run) (side back))

on_kind-intro {ℓ κ} :
    {A : Type ℓ} (Q : A → Type κ) (k : Kind) (x y z : A) → Q x → Q y → Q z → Q (on_kind k x y z)
on_kind-intro Q keep x y z p q r = p
on_kind-intro Q add x y z p q r = q
on_kind-intro Q del x y z p q r = r

regroup :
    (front run : List Dline) (d : Dline) (dl : List Dline)
    → front ++ (run ++ d ∷ dl) ≡ (front ++ (run ++ d ∷ [])) ++ dl
regroup front run d dl =
    ap (λ t. front ++ t) (sym (append_assoc run (d ∷ []) dl))
    ∙ sym (append_assoc front (run ++ d ∷ []) dl)

-- Every run stands in the lines as they are.
module _ (whole : List Dline) (P : List Dline → Type 0)
    (holds : (front run back : List Dline) → whole ≡ front ++ (run ++ back) → P run) where
  close_run-All :
      (run : List Dline) (rest : List (List Dline))
      → P run
      → All P rest
      → All P (close_run run rest)
  close_run-All [] rest p ps = ps
  close_run-All (d ∷ run) rest p ps = (p, ps)

  runs-All : (dl front run : List Dline) → whole ≡ front ++ (run ++ dl) → All P (runs run dl)
  unfolding runs
  runs-All [] front run e = close_run-All run [] (holds front run [] e) tt
  runs-All (d ∷ dl) front run e =
      let ended =
        close_run-All run (runs [] dl) (holds front run (d ∷ dl) e)
          (runs-All dl (front ++ (run ++ (d ∷ []))) [] (e ∙ regroup front run d dl)) in
      let more =
        runs-All dl front (run ++ (d ∷ []))
          (e ∙ ap (λ t. front ++ t) (sym (append_assoc run (d ∷ []) dl))) in
      on_kind-intro (All P) d.kind (close_run run (runs [] dl)) (runs (run ++ (d ∷ [])) dl)
        (runs (run ++ (d ∷ [])) dl) ended more more

abbrev has_a : Kind → Bool
has_a k = on_kind k true false true

abbrev has_b : Kind → Bool
has_b k = on_kind k true true false

abbrev num_a : Dline → ℕ
num_a d = d.a

abbrev num_b : Dline → ℕ
num_b d = d.b

walk-Numbered_a :
    (a b : List Text) (dp : List (List ℕ)) (i j : ℕ) → Numbered num_a has_a i (walk a b dp i j)
unfolding walk
walk-Numbered_a [] [] dp i j = tt
walk-Numbered_a [] (y ∷ b) dp i j = (refl, walk-Numbered_a [] b (map tail dp) i (j + 1))
walk-Numbered_a (x ∷ a) [] dp i j = (refl, walk-Numbered_a a [] (tail dp) (i + 1) j)
walk-Numbered_a (x ∷ a) (y ∷ b) dp i j =
    let k = walk-Numbered_a a b (map tail (tail dp)) (i + 1) (j + 1) in
    let n = walk-Numbered_a (x ∷ a) b (map tail dp) i (j + 1) in
    let d = walk-Numbered_a a (y ∷ b) (tail dp) (i + 1) j in
    elim (walk-cases x a y b dp i j) [
      | inl (e, w) ↦ subst (Numbered num_a has_a i) (sym w) (refl, k)
      | inr (inl (e, p, w)) ↦ subst (Numbered num_a has_a i) (sym w) (refl, n)
      | inr (inr (e, p, w)) ↦ subst (Numbered num_a has_a i) (sym w) (refl, d)
    ]

walk-Numbered_b :
    (a b : List Text) (dp : List (List ℕ)) (i j : ℕ) → Numbered num_b has_b j (walk a b dp i j)
unfolding walk
walk-Numbered_b [] [] dp i j = tt
walk-Numbered_b [] (y ∷ b) dp i j = (refl, walk-Numbered_b [] b (map tail dp) i (j + 1))
walk-Numbered_b (x ∷ a) [] dp i j = (refl, walk-Numbered_b a [] (tail dp) (i + 1) j)
walk-Numbered_b (x ∷ a) (y ∷ b) dp i j =
    let k = walk-Numbered_b a b (map tail (tail dp)) (i + 1) (j + 1) in
    let n = walk-Numbered_b (x ∷ a) b (map tail dp) i (j + 1) in
    let d = walk-Numbered_b a (y ∷ b) (tail dp) (i + 1) j in
    elim (walk-cases x a y b dp i j) [
      | inl (e, w) ↦ subst (Numbered num_b has_b j) (sym w) (refl, k)
      | inr (inl (e, p, w)) ↦ subst (Numbered num_b has_b j) (sym w) (refl, n)
      | inr (inr (e, p, w)) ↦ subst (Numbered num_b has_b j) (sym w) (refl, d)
    ]

on_kind-side_a :
    (k : Kind) (x : Text) (r : List Text)
    → (if has_a k then x ∷ r else r) ≡ on_kind k (x ∷ r) r (x ∷ r)
on_kind-side_a keep x r = refl
on_kind-side_a add x r = refl
on_kind-side_a del x r = refl

on_kind-side_b :
    (k : Kind) (x : Text) (r : List Text)
    → (if has_b k then x ∷ r else r) ≡ on_kind k (x ∷ r) (x ∷ r) r
on_kind-side_b keep x r = refl
on_kind-side_b add x r = refl
on_kind-side_b del x r = refl

side-olds : (dl : List Dline) → side num_a has_a dl ≡ olds dl
unfolding side olds
side-olds [] = refl
side-olds (d ∷ dl) = rw (side-olds dl) (on_kind-side_a d.kind d.text (olds dl))

side-news : (dl : List Dline) → side num_b has_b dl ≡ news dl
unfolding side news
side-news [] = refl
side-news (d ∷ dl) = rw (side-news dl) (on_kind-side_b d.kind d.text (news dl))

range-a_range : (r : ℕ × ℕ) (run : List Dline) → range num_a has_a r run ≡ a_range r run
unfolding range a_range
range-a_range r [] = refl
range-a_range r (d ∷ run) = range-a_range (widen r d.a) run

range-b_range : (r : ℕ × ℕ) (run : List Dline) → range num_b has_b r run ≡ b_range r run
unfolding range b_range
range-b_range r [] = refl
range-b_range r (d ∷ run) = range-b_range (widen r d.b) run

module _ (a b : List Text) where
  Numbered-a : Numbered num_a has_a 0 (dlines a b)
  unfolding dlines
  Numbered-a = walk-Numbered_a a b (table a b) 0 0

  Numbered-b : Numbered num_b has_b 0 (dlines a b)
  unfolding dlines
  Numbered-b = walk-Numbered_b a b (table a b) 0 0

  run-IsRange :
      (front run back : List Dline)
      → dlines a b ≡ front ++ (run ++ back)
      → IsRange a (olds run) (a_range (0, 0) run) × IsRange b (news run) (b_range (0, 0) run)
  run-IsRange front run back e = (
    subst (λ t. IsRange t (olds run) (a_range (0, 0) run))
        (side-olds (front ++ (run ++ back)) ∙ ap olds (sym e) ∙ (dlines-olds-news a b).0)
        (rw (← side-olds run, ← range-a_range (0, 0) run)
          (segment-IsRange num_a has_a front run back
            (subst (Numbered num_a has_a 0) e Numbered-a))),
    subst (λ t. IsRange t (news run) (b_range (0, 0) run))
        (side-news (front ++ (run ++ back)) ∙ ap news (sym e) ∙ (dlines-olds-news a b).1)
        (rw (← side-news run, ← range-b_range (0, 0) run)
          (segment-IsRange num_b has_b front run back
            (subst (Numbered num_b has_b 0) e Numbered-b))),
  )

  -- In the diff of any two texts, the header of each hunk is right on either side: it counts the lines
  -- of the run that stand in the text, and those that it names in the text are these lines.
  pub runs-IsRange :
      All
        (λ run.
          IsRange a (olds run) (a_range (0, 0) run) × IsRange b (news run) (b_range (0, 0) run))
        (runs [] (dlines a b))
  runs-IsRange = runs-All (dlines a b) _ run-IsRange (dlines a b) [] [] refl
