-- ===== src/Diff/Tests.antt =====
-- A diff of two small texts, and the theorems at inputs.
use kalua.Prelude.{◌≤◌, ◌≡◌, refl, List, [], ◌∷◌, ◌++◌, All, length}
use kalua.Prelude.Text.{Text, bytes}
use kalua.Prelude.Split.{split}
use kalua.Klog.Itoa.{itoa, itoa_loop}
use kalua.Diff.{
  drop_last_empty, lines, next_row, zeros, table, walk, dlines, runs, widen, a_range, b_range,
  count, body, hunk, hunks, title, diff,
}
use kalua.Diff.Script.{olds, news, dlines-olds-news}
use kalua.Diff.Lcs.{Subsequence, keeps, keeps-longest}
use kalua.Diff.Hunks.{IsRange, runs-IsRange}
use kalua.Diff.Newline.{diff_newline}

abbrev before : List Text
before = bytes "if x then" ∷ bytes "f( 1 )" ∷ bytes "end" ∷ []

abbrev after : List Text
after = bytes "if x then" ∷ bytes "  f(1)" ∷ bytes "end" ∷ []

kept_lines : keeps (dlines before after) ≡ bytes "if x then" ∷ bytes "end" ∷ []
unfolding keeps dlines table next_row zeros walk
kept_lines = refl

-- "a", "b" and "a", "c", "b"
small_diff :
    diff (bytes "p") (97 ∷ 10 ∷ 98 ∷ 10 ∷ []) (97 ∷ 10 ∷ 99 ∷ 10 ∷ 98 ∷ 10 ∷ [])
    ≡ title (bytes "p") ++ (bytes "@@ -0,0 +2,1 @@" ++ (10 ∷ (bytes "+c" ++ (10 ∷ []))))
unfolding diff lines split drop_last_empty dlines table next_row zeros walk runs hunks hunk widen
    a_range b_range count body itoa itoa_loop
small_diff = refl

dlines-olds-news_example :
    (olds (dlines before after) ≡ before) × (news (dlines before after) ≡ after)
dlines-olds-news_example = dlines-olds-news before after

keeps-longest_example :
    Subsequence (keeps (dlines before after)) before
    × Subsequence (keeps (dlines before after)) after
    × ((c : List Text)
        → Subsequence c before
        → Subsequence c after
        → length c ≤ length (keeps (dlines before after)))
keeps-longest_example = keeps-longest before after

runs-IsRange_example :
    All
      (λ run.
        IsRange before (olds run) (a_range (0, 0) run)
        × IsRange after (news run) (b_range (0, 0) run))
      (runs [] (dlines before after))
runs-IsRange_example = runs-IsRange before after

diff_newline_example : diff (bytes "p") (bytes "end") (bytes "end" ++ 10 ∷ []) ≡ title (bytes "p")
diff_newline_example = diff_newline (bytes "p") (bytes "en") b'd' refl
