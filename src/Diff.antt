-- ===== src/Diff.antt =====
-- internal/format/format.go: Diff, which shows what the formatter changes. The rows of the table and
-- the lines that are left are lists, which begin at the position that the code has reached.
pub mod Script
pub mod Lcs
pub mod Hunks
pub mod Newline
mod Tests
use kalua.Prelude.{
  ℕ, zero, suc, ◌+◌, ◌-◌, ◌≡◌, Bool, true, false, List, [], ◌∷◌, ◌++◌, map, ltb, leb, ◌==◌,
  if◌then◌else◌,
}
use kalua.Prelude.Text.{Text, bytes, text_beq, is_empty}
use kalua.Prelude.Split.{split}
use kalua.Klog.Itoa.{itoa}

-- `if n > 0 && a[n-1] == "" { a = a[:n-1] }`
unfoldable pub drop_last_empty : List Text → List Text
drop_last_empty [] = []
drop_last_empty (s ∷ []) = if is_empty s then [] else s ∷ []
drop_last_empty (s ∷ t ∷ ls) = s ∷ drop_last_empty (t ∷ ls)

unfoldable pub lines : Text → List Text
unfolding split drop_last_empty
lines s = drop_last_empty (split 10 s)

abbrev pub head_or : List ℕ → ℕ
head_or [] = 0
head_or (c ∷ row) = c

abbrev pub tail : {A : Type 0} → List A → List A
tail [] = []
tail (x ∷ xs) = xs

abbrev pub first_row : List (List ℕ) → List ℕ
first_row [] = []
first_row (r ∷ rows) = r

-- The inner loop: the row of a line x over the row rn below it, from the last column on.
unfoldable pub next_row : Text → List Text → List ℕ → List ℕ
next_row x [] rn = 0 ∷ []
next_row x (y ∷ b) rn =
    let r = next_row x b (tail rn) in
    (if text_beq x y
      then head_or (tail rn) + 1
      else if leb (head_or r) (head_or rn)
      then head_or rn
      else head_or r)
    ∷ r

unfoldable pub zeros : List Text → List ℕ
zeros [] = 0 ∷ []
zeros (y ∷ b) = 0 ∷ zeros b

-- The outer loop: the rows of the table, the last one of zeros.
unfoldable pub table : List Text → List Text → List (List ℕ)
unfolding next_row zeros
table [] b = zeros b ∷ []
table (x ∷ a) b = let rows = table a b in next_row x b (first_row rows) ∷ rows

pub data Kind : Type 0 where
  keep : Kind
  add : Kind
  del : Kind

pub record Dline : Type 0 where
  pub kind : Kind
  pub text : Text
  pub a : ℕ
  pub b : ℕ

-- The walk from the position (i, j): the lines of both sides from there, dp[i:] with each row from j
-- on, and the numbers of lines passed.
unfoldable pub walk : List Text → List Text → List (List ℕ) → ℕ → ℕ → List Dline
walk [] [] dp a_no b_no = []
walk [] (y ∷ b) dp a_no b_no =
    record { kind = add; text = y; a = 0; b = b_no + 1 } ∷ walk [] b (map tail dp) a_no (b_no + 1)
walk (x ∷ a) [] dp a_no b_no =
    record { kind = del; text = x; a = a_no + 1; b = 0 } ∷ walk a [] (tail dp) (a_no + 1) b_no
walk (x ∷ a) (y ∷ b) dp a_no b_no =
    let kept =
      record { kind = keep; text = x; a = a_no + 1; b = b_no + 1 }
      ∷ walk a b (map tail (tail dp)) (a_no + 1) (b_no + 1) in
    let added =
      record { kind = add; text = y; a = 0; b = b_no + 1 }
      ∷ walk (x ∷ a) b (map tail dp) a_no (b_no + 1) in
    let deleted =
      record { kind = del; text = x; a = a_no + 1; b = 0 }
      ∷ walk a (y ∷ b) (tail dp) (a_no + 1) b_no in
    if text_beq x y
    then kept
    else if leb (head_or (first_row (tail dp))) (head_or (tail (first_row dp)))
    then added
    else deleted

unfoldable pub dlines : List Text → List Text → List Dline
unfolding table walk
dlines a b = walk a b (table a b) 0 0

-- The runs of lines that are not kept. The run so far is passed along.
abbrev pub close_run : List Dline → List (List Dline) → List (List Dline)
close_run [] rest = rest
close_run (d ∷ run) rest = (d ∷ run) ∷ rest

abbrev pub on_kind {ℓ} : {A : Type ℓ} → Kind → A → A → A → A
on_kind keep x y z = x
on_kind add x y z = y
on_kind del x y z = z

unfoldable pub runs : List Dline → List Dline → List (List Dline)
runs run [] = close_run run []
runs run (d ∷ dl) =
    let ended = close_run run (runs [] dl) in
    let more = runs (run ++ (d ∷ [])) dl in on_kind d.kind ended more more

-- The loop that keeps the first and last number of a side; 0 is no number.
unfoldable pub widen : ℕ × ℕ → ℕ → ℕ × ℕ
widen (s, e) v =
    if ltb 0 v
    then (if s == 0 then (v, v) else (if ltb v s then v else s, if ltb e v then v else e))
    else (s, e)

unfoldable pub a_range : ℕ × ℕ → List Dline → ℕ × ℕ
unfolding widen
a_range r [] = r
a_range r (d ∷ run) = a_range (widen r d.a) run

unfoldable pub b_range : ℕ × ℕ → List Dline → ℕ × ℕ
unfolding widen
b_range r [] = r
b_range r (d ∷ run) = b_range (widen r d.b) run

unfoldable pub count : ℕ × ℕ → ℕ
count (s, e) = if ltb 0 s then e - s + 1 else 0

abbrev pub sign : Kind → ℕ
sign keep = b' '
sign add = b'+'
sign del = b'-'

unfoldable pub body : List Dline → Text
body [] = []
body (d ∷ run) = sign d.kind ∷ (d.text ++ (10 ∷ body run))

unfoldable pub hunk : List Dline → Text
unfolding a_range b_range count itoa body
hunk run =
    let ra = a_range (0, 0) run in
    let rb = b_range (0, 0) run in
    bytes "@@ -"
    ++ (itoa ra.0
        ++ (bytes ","
            ++ (itoa (count ra)
                ++ (bytes " +"
                    ++ (itoa rb.0
                        ++ (bytes "," ++ (itoa (count rb) ++ (bytes " @@" ++ (10 ∷ body run)))))))))

unfoldable pub hunks : List (List Dline) → Text
unfolding hunk
hunks [] = []
hunks (run ∷ rest) = hunk run ++ hunks rest

abbrev pub title : Text → Text
title path = bytes "--- " ++ (path ++ (10 ∷ (bytes "+++ " ++ (path ++ (10 ∷ [])))))

unfoldable pub diff : Text → Text → Text → Text
unfolding lines dlines runs hunks
diff path before after =
    if text_beq before after
    then []
    else title path ++ hunks (runs [] (dlines (lines before) (lines after)))
