-- ===== src/Http/Status.antt =====
-- The status of a response.
use kalua.Prelude.{
  ℕ, zero, suc, ◌≡◌, refl, sym, ap, ◌∙◌, ◌⊎◌, inl, inr, Bool, true, false, Option, none, some, List,
  ◌∷◌, Option-cases, none-ne-some,
}
use kalua.Prelude.Int.{ℤ, pos, negsuc}
use kalua.Prelude.Text.{Text, bytes}
use kalua.Http.{Lua, lua_nil, lua_string, lua_table, Response, normalize, defaults, ok_if_zero}
use kalua.Http.Decode.{decode, decode_view, body_of}
use kalua.Http.Chain.{run_middleware-answers}
use kalua.Http.Dispatch.{
  Middleware, Answer, failed, middleware_fn, middleware_answer, run_middleware, call_handler,
  call_route, route_handler, routed_at, call_routed_http, call_handle_http, call_http,
}

abbrev pub is_zero : ℤ → Bool
is_zero (pos zero) = true
is_zero n = false

ok_if_zero_lem : (n : ℤ) → is_zero (ok_if_zero n) ≡ false
unfolding ok_if_zero
ok_if_zero_lem (pos zero) = refl
ok_if_zero_lem (pos (suc n)) = refl
ok_if_zero_lem (negsuc n) = refl

-- The answer has an error with the status 500 or 503, or no error and a status.
unfoldable pub HasStatus : Answer → Type 0
HasStatus (r, none) = is_zero r.status ≡ false
HasStatus (r, some e) = (r.status ≡ pos 500) ⊎ (r.status ≡ pos 503)

module _ {ℓ} {S V F : Type ℓ} (lua : Lua S V F) where
  call_handler-HasStatus :
      (whole : V → Response) (fn : F) (s : S)
      → ((v : V) → is_zero (whole v).status ≡ false)
      → HasStatus (call_handler lua whole fn s).1
  unfolding call_handler failed HasStatus
  call_handler-HasStatus whole fn s h = elim (Option-cases (lua.call_error fn s)) [
    | inl e ↦ rw (e, call_handler) (h (lua.call_value fn s))
    | inr (err, e) ↦ rw (e, call_handler) (inl refl)
  ]

  call_route-HasStatus :
      (routes : List Text) (i : ℕ) (s : S) → HasStatus (call_route lua routes i s).1
  unfolding call_route defaults HasStatus
  call_route-HasStatus routes i s = elim (Option-cases (route_handler lua s routes i)) [
    | inl e ↦ rw (e, call_route) (inl refl)
    | inr (fn, e) ↦
        rw (e, call_route)
          (call_handler-HasStatus (λ v. defaults (normalize (decode lua v))) fn s
            (λ v. ok_if_zero_lem (normalize (decode lua v)).status))
  ]

  call_handle_http-HasStatus :
      (handler : Option F) (s : S) → HasStatus (call_handle_http lua handler s).1
  unfolding call_handle_http HasStatus defaults
  call_handle_http-HasStatus none s = refl
  call_handle_http-HasStatus (some fn) s =
      call_handler-HasStatus (λ v. defaults (decode lua v)) fn s
        (λ v. ok_if_zero_lem (decode lua v).status)

  -- Where no middleware answers, the answer of CallHTTP has an error and the status 500 or 503, or
  -- it has no error and a status that is not 0.
  pub call_http-HasStatus :
      (free : Bool) (mw : List (Middleware F)) (routes : List Text) (match_ : Option ℕ)
      (handler : Option F) (s : S)
      → (run_middleware lua mw s).1 ≡ none
      → HasStatus (call_http lua free mw routes match_ handler s).1
  unfolding call_http call_routed_http routed_at HasStatus
  call_http-HasStatus false mw routes match_ handler s h = inr refl
  call_http-HasStatus true mw routes none handler s h = call_handle_http-HasStatus handler s
  call_http-HasStatus true mw routes (some i) handler s h = go (run_middleware lua mw s) h
    where
      go : (r : S × Option Answer) → r.1 ≡ none → HasStatus (routed_at lua r routes i).1
      go (s', none) k = call_route-HasStatus routes i s'
      go (s', some a) k = absurd (none-ne-some (sym k))

  answer-table :
      (fn : F) (s : S) (get : Text → V) (pairs : List (V × V)) (text : Text)
      → lua.call_error fn s ≡ none
      → lua.view (lua.call_value fn s) ≡ lua_table get pairs
      → lua.view (get (bytes "status")) ≡ lua_nil
      → lua.view (get (bytes "body")) ≡ lua_string text
      → (a : Answer) × (middleware_answer lua fn s ≡ some a) × (a.0.status ≡ pos 0) × (a.1 ≡ none)
  unfolding middleware_answer decode decode_view normalize body_of
  answer-table fn s get pairs text e v st b = (
    (normalize (decode lua (lua.call_value fn s)), none),
    rw (e, v, middleware_answer) refl,
    rw (v, decode, decode_view, b, st) refl,
    refl,
  )

  -- A middleware that answers with a table of a body and no status ends the request with the
  -- status 0 and no error, whatever else the chain and the routes hold.
  pub middleware_zero :
      (m : Middleware F) (ms : List (Middleware F)) (routes : List Text) (i : ℕ)
      (handler : Option F) (s : S) (fn : F) (get : Text → V) (pairs : List (V × V)) (text : Text)
      → middleware_fn lua s m ≡ some fn
      → lua.call_error fn s ≡ none
      → lua.view (lua.call_value fn s) ≡ lua_table get pairs
      → lua.view (get (bytes "status")) ≡ lua_nil
      → lua.view (get (bytes "body")) ≡ lua_string text
      → ((call_http lua true (m ∷ ms) routes (some i) handler s).1.0.status ≡ pos 0)
        × ((call_http lua true (m ∷ ms) routes (some i) handler s).1.1 ≡ none)
  unfolding call_http call_routed_http routed_at
  middleware_zero m ms routes i handler s fn get pairs text f e v st b =
      let (a, k, z, n) = answer-table fn s get pairs text e v st b in
      let run = run_middleware-answers lua m ms s fn a f k in
      (
        ap (λ r. (routed_at lua r routes i).1.0.status) run ∙ z,
        ap (λ r. (routed_at lua r routes i).1.1) run ∙ n,
      )
