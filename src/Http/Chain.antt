-- ===== src/Http/Chain.antt =====
-- The chain of middleware.
use kalua.Prelude.{
  ◌≡◌, refl, ap, sym, ◌∙◌, inl, inr, Option, none, some, List, [], ◌∷◌, ◌++◌, Option-cases,
}
use kalua.Http.{Lua}
use kalua.Http.Dispatch.{Middleware, Answer, middleware_fn, middleware_answer, run_middleware}

module _ {ℓ} {S V F : Type ℓ} (lua : Lua S V F) where
  run_middleware-skips :
      (m : Middleware F) (ms : List (Middleware F)) (s : S)
      → middleware_fn lua s m ≡ none
      → run_middleware lua (m ∷ ms) s ≡ run_middleware lua ms s
  unfolding run_middleware
  run_middleware-skips m ms s e = rw (e, run_middleware) refl

  pub run_middleware-answers :
      (m : Middleware F) (ms : List (Middleware F)) (s : S) (fn : F) (a : Answer)
      → middleware_fn lua s m ≡ some fn
      → middleware_answer lua fn s ≡ some a
      → run_middleware lua (m ∷ ms) s ≡ (lua.call_state fn s, some a)
  unfolding run_middleware
  run_middleware-answers m ms s fn a e k = rw (e, k, run_middleware) refl

  run_middleware-passes :
      (m : Middleware F) (ms : List (Middleware F)) (s : S) (fn : F)
      → middleware_fn lua s m ≡ some fn
      → middleware_answer lua fn s ≡ none
      → run_middleware lua (m ∷ ms) s ≡ run_middleware lua ms (lua.call_state fn s)
  unfolding run_middleware
  run_middleware-passes m ms s fn e k = rw (e, k, run_middleware) refl

  -- A chain goes on where the one before it left the state, unless that has answered.
  unfoldable pub go_on : S × Option Answer → List (Middleware F) → S × Option Answer
  go_on (s, some a) ms = (s, some a)
  go_on (s, none) ms = run_middleware lua ms s

  -- A chain of two parts runs the first and then, in the state that it leaves, the second, which
  -- does not run if the first has answered.
  pub run_middleware-append :
      (ms ns : List (Middleware F)) (s : S)
      → run_middleware lua (ms ++ ns) s ≡ go_on (run_middleware lua ms s) ns
  unfolding run_middleware go_on
  run_middleware-append [] ns s = refl
  run_middleware-append (m ∷ ms) ns s = elim (Option-cases (middleware_fn lua s m)) [
    | inl e ↦
        run_middleware-skips m (ms ++ ns) s e
        ∙ run_middleware-append ms ns s
        ∙ ap (λ r. go_on r ns) (sym (run_middleware-skips m ms s e))
    | inr (fn, e) ↦ elim (Option-cases (middleware_answer lua fn s)) [
      | inl k ↦
          run_middleware-passes m (ms ++ ns) s fn e k
          ∙ run_middleware-append ms ns (lua.call_state fn s)
          ∙ ap (λ r. go_on r ns) (sym (run_middleware-passes m ms s fn e k))
      | inr (a, k) ↦
          run_middleware-answers m (ms ++ ns) s fn a e k
          ∙ ap (λ r. go_on r ns) (sym (run_middleware-answers m ms s fn a e k))
    ]
  ]
