-- ===== src/Config/RoundTrip.antt =====
-- A file written line by line and parsed.
use kalua.Prelude.{◌≡◌, refl, ap, ◌∙◌, true, List, [], ◌∷◌, ◌++◌, arith, nat_eq, map, All}
use kalua.Prelude.Text.{Text}
use kalua.Config.{File, new, strip_bom, split_lines, parse_line, parse_lines, parse, values}
use kalua.Prelude.Dict.{lookup}
use kalua.Config.Trim.{split_lines-append}
use kalua.Config.Line.{Line, blank, render, unlines, IsLine, IsWritten, meant, ascii}
use kalua.Config.Parse.{parse_line-render, parse_lines-meant, read}

strip_bom-ascii : (t : Text) → ascii t ≡ true → strip_bom t ≡ t
unfolding strip_bom
strip_bom-ascii [] h = refl
strip_bom-ascii (a ∷ []) h = refl
strip_bom-ascii (a ∷ b ∷ []) h = refl
strip_bom-ascii (a ∷ b ∷ c ∷ t) h = ground (arith, h)

split_lines-unlines :
    (ls : List Line)
    → All IsLine ls
    → split_lines (unlines (map render ls)) ≡ map render ls ++ ([] ∷ [])
unfolding split_lines unlines
split_lines-unlines [] h = refl
split_lines-unlines (l ∷ ls) h =
    split_lines-append (render l) (unlines (map render ls)) h.0.1
    ∙ ap (λ r. render l ∷ r) (split_lines-unlines ls h.1)

-- The empty text after the last line feed.
parse_lines-last :
    (st : File × Text) (raws : List Text) → parse_lines st (raws ++ ([] ∷ [])) ≡ parse_lines st raws
unfolding parse_lines IsWritten
parse_lines-last st [] = unfold render read in parse_line-render st blank tt
parse_lines-last st (raw ∷ raws) = parse_lines-last (parse_line st raw) raws

values-new : (section key : Text) → values new section key ≡ []
unfolding values lookup
values-new section key = refl

-- In an ASCII file of written lines without line feeds, each ended by one, Values of a section and a key are the
-- values of the entries whose section and key have the same normalized names, in the order of the
-- file; a key without a value has the value true, and the value of an entry is all of its text behind the
-- first =, trimmed, a semicolon or a # and what is behind it included.
pub parse-unlines :
    (ls : List Line) (section key : Text)
    → All IsLine ls
    → ascii (unlines (map render ls)) ≡ true
    → values (parse (unlines (map render ls))) section key ≡ meant section key [] ls
unfolding parse
parse-unlines ls section key h a =
    ap (λ t. values (parse_lines (new, []) (split_lines t)).0 section key)
      (strip_bom-ascii (unlines (map render ls)) a)
    ∙ ap (λ raws. values (parse_lines (new, []) raws).0 section key) (split_lines-unlines ls h)
    ∙ ap (λ st. values st.0 section key) (parse_lines-last (new, []) (map render ls))
    ∙ parse_lines-meant (new, []) ls section key h
    ∙ ap (λ vs. vs ++ meant section key [] ls) (values-new section key)
