-- ===== src/Http.antt =====
-- How a worker answers a request: CallHTTP, callRoutedHTTP and decodeHTTPResponse of
-- internal/server/worker.go, MiddlewareFn and RouteHandler of internal/server/router.go. The Lua
-- interpreter is a parameter, as is the match of a path against the routes.
pub mod Decode
pub mod Dispatch
pub mod Status
pub mod Chain
pub mod Events
mod Tests
use kalua.Prelude.{ℕ, zero, Option, none, some, List, [], ◌∷◌}
use kalua.Prelude.Int.{ℤ, pos, negsuc}
use kalua.Prelude.Text.{Text, bytes, text_eq}
use kalua.Prelude.Dict.{Dict, lookup, insert}

-- What a Go type switch sees of a Lua value. A number is given as int makes it; of a table, RawGetString and the
-- pairs that ForEach visits.
pub data View {ℓ} (V : Type ℓ) : Type ℓ where
  lua_nil : View V
  lua_string : Text → View V
  lua_number : ℤ → View V
  lua_table : (Text → V) → List (V × V) → View V
  lua_other : View V

-- The interpreter with the request table in its state: how it shows a value, what String and
-- JSONStringifyLua give, the global function of a name, and a protected call, which gives an error's
-- text or the value returned.
pub record Lua {ℓ} (S V F : Type ℓ) : Type ℓ where
  pub view : V → View V
  pub to_string : V → Text
  pub stringify : V → Option Text
  pub stringify_error : V → Text
  pub global : S → Text → Option F
  pub call_error : F → S → Option Text
  pub call_value : F → S → V
  pub call_state : F → S → S

-- Headers are a nil map or a map.
pub record Response : Type 0 where
  pub status : ℤ
  pub headers : Option (Dict Text Text)
  pub body : Text

-- The pairs of a header table; a later pair of a name wins.
unfoldable pub header_pairs {ℓ} :
    {V : Type ℓ} → (V → Text) → List (V × V) → Dict Text Text → Dict Text Text
header_pairs str [] m = m
header_pairs str ((k, v) ∷ rest) m = header_pairs str rest (insert (str k) (str v) m)

abbrev pub or_empty : Option (Dict Text Text) → Dict Text Text
or_empty none = []
or_empty (some m) = m

-- `if _, ok := headers["content-type"]; !ok`
unfoldable pub with_json_type : Dict Text Text → Dict Text Text
with_json_type m = elim (lookup (bytes "content-type") m) [
  | none ↦ insert (bytes "content-type") (bytes "application/json") m
  | some v ↦ m
]

-- normalizeHTTPResponse
unfoldable pub normalize : Response → Response
normalize r = record r { headers = some (or_empty r.headers) }

-- The status 200 and the headers that CallHTTP gives to a response that has none.
unfoldable pub ok_if_zero : ℤ → ℤ
ok_if_zero (pos zero) = pos 200
ok_if_zero n = n

unfoldable pub defaults : Response → Response
unfolding ok_if_zero
defaults r = record {
  status = ok_if_zero r.status;
  headers = some (or_empty r.headers);
  body = r.body;
}
