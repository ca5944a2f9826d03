-- ===== src/Config/Parse.antt =====
-- The parser against the meaning of the lines of a file.
use kalua.Prelude.{
  ℕ, ◌≡◌, refl, sym, ap, ◌∙◌, true, false, ◌&&◌, List, [], ◌∷◌, ◌++◌, ◌==◌, if◌then◌else◌, arith,
  append-nil, append_assoc, elem, nat_eq, elem-append, map, All,
}
use kalua.Prelude.Text.{Text, bytes, is_empty, text_eq}
use kalua.Prelude.Ascii.{trim_space, trim_right, span}
use kalua.Config.{
  File, is_other, key_value, add_value, open_section, parse_line, parse_trimmed, parse_lines,
  values,
}
use kalua.Config.Store.{values-add_value, values-open_section}
use kalua.Config.Trim.{
  Trimmed, trim_space-Trimmed, ends-append, take-brackets, span-equals, span-no_equals,
  trim_space-key, trim_space-padded, trim_space-entry, trim_space-header, trim_space-comment,
  nil-Trimmed, Trimmed-head,
}
use kalua.Config.Line.{
  Line, blank, comment, header, entry, bare, render, plain, IsKey, IsWritten, IsLine, same, meant,
}

parse_line-trim :
    (f : File) (current raw line : Text)
    → trim_space raw ≡ line
    → parse_line (f, current) raw ≡ parse_trimmed (f, current) line
unfolding parse_line
parse_line-trim f current raw line e = ap (parse_trimmed (f, current)) e

parse_trimmed-header :
    (f : File) (current name : Text)
    → Trimmed name
    → parse_trimmed (f, current) (b'[' ∷ (name ++ bytes "]")) ≡ (open_section f name, name)
unfolding parse_trimmed
parse_trimmed-header f current name h =
    rw (ends-append b']' (b'[' ∷ name), take-brackets name b'[' b']', trim_space-Trimmed name h)
      refl

-- A line that begins as a key does.
parse_trimmed-plain :
    (f : File) (current line k v : Text)
    → plain line ≡ true
    → key_value line ≡ (k, v)
    → is_empty k ≡ false
    → parse_trimmed (f, current) line ≡ (add_value f current k v, current)
unfolding parse_trimmed
parse_trimmed-plain f current [] k v p e n = absurd (ground (arith, p))
parse_trimmed-plain f current (c ∷ s) k v p e n =
    let semi : c == b';' ≡ false = ground (arith, p) in
    let hash : c == b'#' ≡ false = ground (arith, p) in
    let open_ : c == b'[' ≡ false = ground (arith, p) in rw (semi, hash, open_, e, n) refl

key_value-bare : (k : Text) → elem b'=' k ≡ false → key_value k ≡ (k, bytes "true")
unfolding key_value
key_value-bare k h = rw (span-no_equals k h, key_value) refl

key_value-span :
    (line before rest : Text) (eq : ℕ)
    → span is_other line ≡ (before, eq ∷ rest)
    → key_value line ≡ (trim_space before, trim_space rest)
unfolding key_value
key_value-span line before rest eq e = rw (e, key_value) refl

key_value-entry :
    (c : ℕ) (k v : Text)
    → Trimmed (c ∷ k)
    → Trimmed v
    → elem b'=' (c ∷ k) ≡ false
    → key_value (((c ∷ k) ++ bytes " ") ++ (b'=' ∷ trim_right (b' ' ∷ v))) ≡ (c ∷ k, v)
unfolding key_value elem
key_value-entry c k v h g e =
    let line = ((c ∷ k) ++ bytes " ") ++ (b'=' ∷ trim_right (b' ' ∷ v)) in
    let no : elem b'=' ((c ∷ k) ++ bytes " ") ≡ false =
      ground (arith, elem-append b'=' (c ∷ k) (bytes " ")) in
    key_value-span line ((c ∷ k) ++ bytes " ") (trim_right (b' ' ∷ v)) b'='
      (span-equals ((c ∷ k) ++ bytes " ") (trim_right (b' ' ∷ v)) no)
    ∙ rw (trim_space-key c k h, trim_space-padded v g) refl

-- The file and the section after a line as it is written.
unfoldable pub read : File × Text → Line → File × Text
read st blank = st
read st (comment text) = st
read st (header name) = (open_section st.0 name, name)
read st (entry k v) = (add_value st.0 st.1 k v, st.1)
read st (bare k) = (add_value st.0 st.1 k (bytes "true"), st.1)

pub parse_line-render :
    (st : File × Text) (l : Line) → IsWritten l → parse_line st (render l) ≡ read st l
unfolding read render IsWritten IsKey
parse_line-render (f, current) blank h =
    parse_line-trim f current [] [] (trim_space-Trimmed [] nil-Trimmed)
    ∙ unfold parse_trimmed in refl
parse_line-render (f, current) (comment text) h =
    parse_line-trim f current (b';' ∷ (b' ' ∷ text)) (b';' ∷ trim_right (b' ' ∷ text))
      (trim_space-comment (b' ' ∷ text))
    ∙ unfold parse_trimmed in refl
parse_line-render (f, current) (header name) h =
    parse_line-trim f current (b'[' ∷ (name ++ bytes "]")) (b'[' ∷ (name ++ bytes "]"))
      (trim_space-header name)
    ∙ parse_trimmed-header f current name h
parse_line-render (f, current) (entry [] v) h = absurd (ground (arith, h.0.1))
parse_line-render (f, current) (entry (c ∷ k) v) h =
    let line = ((c ∷ k) ++ bytes " ") ++ (b'=' ∷ trim_right (b' ' ∷ v)) in
    parse_line-trim f current ((c ∷ k) ++ (bytes " = " ++ v)) line
      (trim_space-entry c k v (Trimmed-head c k h.0.0))
    ∙ parse_trimmed-plain f current line (c ∷ k) v h.0.1 (key_value-entry c k v h.0.0 h.1 h.0.2)
        refl
parse_line-render (f, current) (bare []) h = absurd (ground (arith, h.1))
parse_line-render (f, current) (bare (c ∷ k)) h =
    parse_line-trim f current (c ∷ k) (c ∷ k) (trim_space-Trimmed (c ∷ k) h.0)
    ∙ parse_trimmed-plain f current (c ∷ k) (c ∷ k) (bytes "true") h.1 (key_value-bare (c ∷ k) h.2)
        refl

-- One line adds what it means to the values of a key.
read-values :
    (st : File × Text) (l : Line) (section key : Text) (ls : List Line)
    → values st.0 section key ++ meant section key st.1 (l ∷ ls)
      ≡ values (read st l).0 section key ++ meant section key (read st l).1 ls
unfolding read meant
read-values st blank section key ls = refl
read-values st (comment text) section key ls = refl
read-values st (header name) section key ls =
    ap (λ vs. vs ++ meant section key name ls) (sym (values-open_section st.0 name section key))
read-values st (entry k v) section key ls =
    sym (
      append_assoc (values st.0 section key)
        (if same st.1 section && same k key then v ∷ [] else []) (meant section key st.1 ls))
    ∙ ap (λ vs. vs ++ meant section key st.1 ls) (sym (values-add_value st.0 st.1 k v section key))
read-values st (bare k) section key ls =
    sym (
      append_assoc (values st.0 section key)
        (if same st.1 section && same k key then bytes "true" ∷ [] else [])
        (meant section key st.1 ls))
    ∙ ap (λ vs. vs ++ meant section key st.1 ls)
        (sym (values-add_value st.0 st.1 k (bytes "true") section key))

pub parse_lines-meant :
    (st : File × Text) (ls : List Line) (section key : Text)
    → All IsLine ls
    → values (parse_lines st (map render ls)).0 section key
      ≡ values st.0 section key ++ meant section key st.1 ls
unfolding parse_lines meant
parse_lines-meant st [] section key h = sym (append-nil (values st.0 section key))
parse_lines-meant st (l ∷ ls) section key h =
    ap (λ s. values (parse_lines s (map render ls)).0 section key) (parse_line-render st l h.0.0)
    ∙ parse_lines-meant (read st l) ls section key h.1
    ∙ sym (read-values st l section key ls)
