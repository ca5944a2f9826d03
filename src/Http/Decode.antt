-- ===== src/Http/Decode.antt =====
-- decodeHTTPResponse.
use kalua.Prelude.{Option, none, some, [], ◌∷◌}
use kalua.Prelude.Int.{ℤ, pos}
use kalua.Prelude.Text.{Text, bytes}
use kalua.Prelude.Dict.{Dict}
use kalua.Http.{
  Lua, View, lua_nil, lua_string, lua_number, lua_table, lua_other, Response, header_pairs,
  or_empty, with_json_type,
}

module _ {ℓ} {S V F : Type ℓ} (lua : Lua S V F) where
  abbrev pub status_of : View V → ℤ
  status_of (lua_number n) = n
  status_of v = pos 0

  unfoldable pub headers_of : View V → Option (Dict Text Text)
  unfolding header_pairs
  headers_of (lua_table get pairs) = some (header_pairs lua.to_string pairs [])
  headers_of v = none

  -- The `json` field, in a response that has no body.
  unfoldable pub json_of : Response → V → View V → Response
  unfolding with_json_type
  json_of r j lua_nil = r
  json_of r j shown = elim (lua.stringify j) [
    | none ↦ record { status = pos 500; headers = r.headers; body = lua.stringify_error j }
    | some text ↦ record {
      status = r.status;
      headers = some (with_json_type (or_empty r.headers));
      body = text;
    }
  ]

  unfoldable pub body_of : Response → V → View V → V → Response
  unfolding json_of
  body_of r b lua_nil j = json_of r j (lua.view j)
  body_of r b shown j = record r { body = lua.to_string b }

  unfoldable pub decode_view : View V → Response
  unfolding headers_of body_of
  decode_view lua_nil = record { status = pos 200; headers = none; body = [] }
  decode_view (lua_string s) = record {
    status = pos 200;
    headers = some ((bytes "content-type", bytes "text/plain") ∷ []);
    body = s;
  }
  decode_view (lua_number n) = record { status = n; headers = none; body = [] }
  decode_view (lua_table get pairs) =
      let r : Response = record {
        status = status_of (lua.view (get (bytes "status")));
        headers = headers_of (lua.view (get (bytes "headers")));
        body = [];
      } in
      body_of r (get (bytes "body")) (lua.view (get (bytes "body"))) (get (bytes "json"))
  decode_view lua_other = record { status = pos 0; headers = none; body = [] }

  unfoldable pub decode : V → Response
  unfolding decode_view
  decode v = decode_view (lua.view v)
