-- ===== src/TableDb.antt =====
-- internal/bindings/tabledb.go: the pages of a table that is linked to a database. The SQL is text,
-- built as the code builds it. The database is a parameter: its answer to a query may depend on all
-- queries that were run before. Operators, fields and directions are ASCII. A range over a Go map is
-- a list in some order.
pub mod Sql
pub mod Fetch
pub mod Safe
pub mod Pages
mod Tests
use kalua.Prelude.{
  ℕ, zero, suc, ◌+◌, ◌-◌, ◌≡◌, map, Bool, true, false, not, ◌&&◌, ◌||◌, Option, none, some, List,
  [], ◌∷◌, ◌++◌, leb, ◌==◌, if◌then◌else◌, elem,
}
use kalua.Prelude.Text.{Text, bytes, text_beq, text_eq, is_empty}
use kalua.Prelude.Ascii.{is_space, lower}
use kalua.Klog.Itoa.{itoa}

-- isValidIdentifier of db.go
abbrev pub is_word_byte : ℕ → Bool
is_word_byte c =
    (leb b'a' c && leb c b'z')
    || (leb b'A' c && leb c b'Z')
    || (leb b'0' c && leb c b'9')
    || c == b'_'

unfoldable pub all_word_bytes : Text → Bool
all_word_bytes [] = true
all_word_bytes (c ∷ s) = is_word_byte c && all_word_bytes s

unfoldable pub is_valid_identifier : Text → Bool
unfolding all_word_bytes
is_valid_identifier s = not (is_empty s) && all_word_bytes s

-- The driver of a DBHandle, and Placeholder of db.go.
pub data Driver : Type 0 where
  pgx : Driver
  sqlserver : Driver
  other : Driver

unfoldable pub placeholder : Driver → ℕ → Text
placeholder pgx n = bytes "$" ++ itoa n
placeholder sqlserver n = bytes "@p" ++ itoa n
placeholder other n = bytes "?"

pub record SortSpec : Type 0 where
  pub field : Text
  pub dir : Text

pub record FilterSpec : Type 0 where
  pub field : Text
  pub op : Text
  pub value : Text

-- A bound parameter: a value of the base filter, or a text of the browser.
pub data Param (V : Type 0) : Type 0 where
  value : V → Param V
  text : Text → Param V

-- strings.Fields
abbrev pub flush : Text → List Text → List Text
flush cur rest = if is_empty cur then rest else cur ∷ rest

unfoldable pub fields_loop : Text → Text → List Text
fields_loop cur [] = flush cur []
fields_loop cur (c ∷ s) =
    let ended = flush cur (fields_loop [] s) in
    let more = fields_loop (cur ++ (c ∷ [])) s in if is_space c then ended else more

unfoldable pub fields : Text → List Text
unfolding fields_loop
fields s = fields_loop [] s

abbrev pub upper_byte : ℕ → ℕ
upper_byte c = if leb b'a' c && leb c b'z' then c - 32 else c

unfoldable pub to_upper : Text → Text
to_upper = map upper_byte

-- `dir != "ASC" && dir != "DESC"`
unfoldable pub direction : Text → Text
unfolding to_upper
direction d =
    if text_beq (to_upper d) (bytes "ASC")
    then bytes "ASC"
    else if text_beq (to_upper d) (bytes "DESC")
    then bytes "DESC"
    else bytes "ASC"

-- inList(whitelist, f) && isValidIdentifier(f)
unfoldable pub is_allowed : List Text → Text → Bool
unfolding is_valid_identifier
is_allowed whitelist f = elem f whitelist && is_valid_identifier f
