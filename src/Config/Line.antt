-- ===== src/Config/Line.antt =====
-- The lines that an INI file is made of, how they are written, and what they mean.
use kalua.Prelude.{
  ◌≡◌, Bool, true, false, ◌&&◌, List, [], ◌∷◌, ◌++◌, if◌then◌else◌, elem, nat_eq, ◌==◌, not, ltb,
}
use kalua.Prelude.Text.{Text, bytes, text_beq}
use kalua.Config.{norm}
use kalua.Config.Trim.{Trimmed}

pub data Line : Type 0 where
  blank : Line
  comment : Text → Line
  header : Text → Line
  entry : Text → Text → Line
  bare : Text → Line

unfoldable pub render : Line → Text
render blank = []
render (comment text) = bytes "; " ++ text
render (header name) = b'[' ∷ (name ++ bytes "]")
render (entry k v) = k ++ (bytes " = " ++ v)
render (bare k) = k

unfoldable pub unlines : List Text → Text
unlines [] = []
unlines (l ∷ ls) = l ++ (10 ∷ unlines ls)

-- The byte can begin a key.
abbrev pub plain : Text → Bool
plain [] = false
plain (c ∷ s) = not (c == b';') && (not (c == b'#') && not (c == b'['))

-- A key: trimmed, not empty, and read as neither a comment, a section nor a value.
unfoldable pub IsKey : Text → Type 0
IsKey k = Trimmed k × (plain k ≡ true) × (elem b'=' k ≡ false)

-- What may stand in a line.
unfoldable pub IsWritten : Line → Type 0
IsWritten blank = Unit
IsWritten (comment text) = Unit
IsWritten (header name) = Trimmed name
IsWritten (entry k v) = IsKey k × Trimmed v
IsWritten (bare k) = IsKey k

abbrev pub IsLine : Line → Type 0
IsLine l = IsWritten l × (elem 10 (render l) ≡ false)

abbrev pub same : Text → Text → Bool
same a b = text_beq (norm a) (norm b)

-- The values of a key of a section: of its entries in every part of the section, in their order.
unfoldable pub meant : Text → Text → Text → List Line → List Text
meant section key current [] = []
meant section key current (blank ∷ ls) = meant section key current ls
meant section key current (comment text ∷ ls) = meant section key current ls
meant section key current (header name ∷ ls) = meant section key name ls
meant section key current (entry k v ∷ ls) =
    (if same current section && same k key then v ∷ [] else []) ++ meant section key current ls
meant section key current (bare k ∷ ls) =
    (if same current section && same k key then bytes "true" ∷ [] else [])
    ++ meant section key current ls

abbrev pub ascii : Text → Bool
ascii [] = true
ascii (c ∷ s) = ltb c 128 && ascii s
