-- ===== src/Http/Dispatch.antt =====
-- CallHTTP with callRoutedHTTP. The error of a call is its text; notifyError, which reports it to a
-- Lua function, and the times are not modelled.
use kalua.Prelude.{
  ℕ, Bool, true, false, Option, none, some, List, [], ◌∷◌, get_elem?, if◌then◌else◌,
}
use kalua.Prelude.Int.{pos}
use kalua.Prelude.Text.{Text, bytes}
use kalua.Http.{Lua, View, lua_nil, Response, normalize, defaults}
use kalua.Http.Decode.{decode}

-- An entry of the chain: a function value, or the name of a global.
pub data Middleware {ℓ} (F : Type ℓ) : Type ℓ where
  named : Text → Middleware F
  direct : F → Middleware F

-- A response and the error beside it.
abbrev pub Answer : Type 0
Answer = Response × Option Text

abbrev pub is_lua_nil {ℓ} : {V : Type ℓ} → View V → Bool
is_lua_nil lua_nil = true
is_lua_nil v = false

module _ {ℓ} {S V F : Type ℓ} (lua : Lua S V F) where
  unfoldable pub failed : Text → Answer
  failed err = (record { status = pos 500; headers = none; body = err }, some err)

  unfoldable pub middleware_fn : S → Middleware F → Option F
  middleware_fn s (named name) = lua.global s name
  middleware_fn s (direct fn) = some fn

  -- RouteHandler; an index out of range has no handler.
  unfoldable pub route_handler : S → List Text → ℕ → Option F
  route_handler s routes i = elim (get_elem? routes i) [
    | none ↦ none
    | some name ↦ lua.global s name
  ]

  -- What one call of the chain answers, if it does.
  unfoldable pub middleware_answer : F → S → Option Answer
  unfolding failed
  middleware_answer fn s = elim (lua.call_error fn s) [
    | some err ↦ some (failed err)
    | none ↦
        if is_lua_nil (lua.view (lua.call_value fn s))
        then none
        else some (normalize (decode lua (lua.call_value fn s)), none)
  ]

  -- The loop over the chain: the state after it, and the answer that ended it.
  unfoldable pub run_middleware : List (Middleware F) → S → S × Option Answer
  unfolding middleware_fn middleware_answer
  run_middleware [] s = (s, none)
  run_middleware (m ∷ ms) s = elim (middleware_fn s m) [
    | none ↦ run_middleware ms s
    | some fn ↦ elim (middleware_answer fn s) [
      | some a ↦ (lua.call_state fn s, some a)
      | none ↦ run_middleware ms (lua.call_state fn s)
    ]
  ]

  -- A call of a handler and its answer; `whole` is what makes a response of the value.
  unfoldable pub call_handler : (V → Response) → F → S → S × Answer
  unfolding failed
  call_handler whole fn s = elim (lua.call_error fn s) [
    | some err ↦ (lua.call_state fn s, failed err)
    | none ↦ (lua.call_state fn s, (whole (lua.call_value fn s), none))
  ]

  unfoldable pub call_route : List Text → ℕ → S → S × Answer
  unfolding route_handler call_handler
  call_route routes i s = elim (route_handler s routes i) [
    | none ↦ (
      s,
      (
        record { status = pos 500; headers = some []; body = bytes "route handler not found" },
        some (bytes "route handler not found"),
      ),
    )
    | some fn ↦ call_handler (λ v. defaults (normalize (decode lua v))) fn s
  ]

  -- callRoutedHTTP for a matched route.
  unfoldable pub routed_at : S × Option Answer → List Text → ℕ → S × Answer
  unfolding call_route
  routed_at (s, some a) routes i = (s, a)
  routed_at (s, none) routes i = call_route routes i s

  unfoldable pub call_routed_http : List (Middleware F) → List Text → ℕ → S → S × Answer
  unfolding run_middleware routed_at
  call_routed_http mw routes i s = routed_at (run_middleware mw s) routes i

  -- handle_http
  unfoldable pub call_handle_http : Option F → S → S × Answer
  unfolding call_handler
  call_handle_http none s = (
    s,
    (record { status = pos 404; headers = none; body = bytes "no handle_http callback" }, none),
  )
  call_handle_http (some fn) s = call_handler (λ v. defaults (decode lua v)) fn s

  -- CallHTTP: whether the slot was free in time, the router's chain and routes, the index of the matched route, if
  -- there are a router and a match, and the handler handle_http, if it is defined.
  unfoldable pub call_http :
      Bool → List (Middleware F) → List Text → Option ℕ → Option F → S → S × Answer
  unfolding call_routed_http call_handle_http
  call_http false mw routes match handler s = (
    s,
    (
      record {
        status = pos 503;
        headers = some ((bytes "Retry-After", bytes "1") ∷ []);
        body = bytes "worker busy, retry after 1s";
      },
      some (bytes "worker busy"),
    ),
  )
  call_http true mw routes (some i) handler s = call_routed_http mw routes i s
  call_http true mw routes none handler s = call_handle_http handler s
