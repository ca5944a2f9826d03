-- ===== src/Session/Stack.antt =====
-- The stack of forms against the abstract stack that it stands for, and the idle timers of its forms.
use kalua.Prelude.{
  ℕ, ◌≡◌, refl, sym, ap, ◌∙◌, inl, inr, true, ◌||◌, Option, none, some, List, [], ◌∷◌, ◌++◌, elem,
  arith, Bool-cases,
}
use kalua.Prelude.Text.{Text, text_eq, text_beq, text_beq_iff}
use kalua.Prelude.Dict.{lookup, lookup-insert, lookup-remove}
use kalua.Session.{
  Session, last_or, init, push_form, top_form, pop_form, pop_stack, start_top, start_idle_timer,
  stop_idle_timer,
}

-- PushForm, PopForm and TopForm. With each call that reads it comes what the forms say of their idle
-- timers at that time.
pub data Call : Type 0 where
  push : Text → (Text → Option ℕ) → Call
  pop : (Text → Option ℕ) → Call
  top : Call

module _ {M : Type 0} where
  unfoldable pub call : Session M → Call → Session M × Option Text
  unfolding push_form pop_form top_form
  call s (push name idle) = (push_form idle s name, none)
  call s (pop idle) = let r = pop_form idle s in (r.0, some r.1)
  call s top = (s, some (top_form s))

  -- The results of a sequence of calls, and the session after it.
  unfoldable pub calls : Session M → List Call → Session M × List (Option Text)
  unfolding call
  calls s [] = (s, [])
  calls s (c ∷ cs) = let r = call s c in let rest = calls r.0 cs in (rest.0, r.1 ∷ rest.1)

-- The specification: a list whose first form is the top one. The empty text stands for no form.
abbrev pub spec_top : List Text → Text
spec_top [] = []
spec_top (x ∷ stack) = x

abbrev pub spec_rest : List Text → List Text
spec_rest [] = []
spec_rest (x ∷ stack) = stack

abbrev pub spec_call : List Text → Call → List Text × Option Text
spec_call stack (push name idle) = (name ∷ stack, none)
spec_call stack (pop idle) = (spec_rest stack, some (spec_top stack))
spec_call stack top = (stack, some (spec_top stack))

abbrev pub spec_calls : List Text → List Call → List Text × List (Option Text)
spec_calls stack [] = (stack, [])
spec_calls stack (c ∷ cs) =
    let r = spec_call stack c in let rest = spec_calls r.0 cs in (rest.0, r.1 ∷ rest.1)

-- The slice that stands for a stack.
abbrev pub slice : List Text → List Text
slice [] = []
slice (x ∷ stack) = slice stack ++ (x ∷ [])

last_or-snoc : (d : Text) (xs : List Text) (x : Text) → last_or d (xs ++ (x ∷ [])) ≡ x
last_or-snoc d [] x = refl
last_or-snoc d (y ∷ xs) x = last_or-snoc y xs x

init-snoc : (xs : List Text) (x : Text) → init (xs ++ (x ∷ [])) ≡ xs
init-snoc [] x = refl
init-snoc (y ∷ []) x = refl
init-snoc (y ∷ z ∷ xs) x = ap (λ r. y ∷ r) (init-snoc (z ∷ xs) x)

snoc-cons : (xs : List Text) (x : Text) → (y : Text) × (ys : List Text) × (xs ++ (x ∷ []) ≡ y ∷ ys)
snoc-cons [] x = (x, [], refl)
snoc-cons (y ∷ xs) x = (y, xs ++ (x ∷ []), refl)

module _ {M : Type 0} where
  start_idle_timer-stack :
      (s : Session M) (name : Text) (o : Option ℕ)
      → (start_idle_timer s name o).form_stack ≡ s.form_stack
  unfolding start_idle_timer
  start_idle_timer-stack s name none = refl
  start_idle_timer-stack s name (some ms) = refl

  start_top-stack :
      (idle : Text → Option ℕ) (s : Session M) (stack : List Text)
      → (start_top idle s stack).form_stack ≡ s.form_stack
  unfolding start_top
  start_top-stack idle s [] = refl
  start_top-stack idle s (x ∷ stack) =
      start_idle_timer-stack s (last_or x stack) (idle (last_or x stack))

  pop_stack-cons :
      (idle : Text → Option ℕ) (s : Session M) (x : Text) (stack : List Text)
      → ((pop_stack idle s (x ∷ stack)).0.form_stack ≡ init (x ∷ stack))
        × ((pop_stack idle s (x ∷ stack)).1 ≡ last_or [] (x ∷ stack))
  unfolding pop_stack stop_idle_timer
  pop_stack-cons idle s x stack = (start_top-stack idle _ (init (x ∷ stack)), refl)

  call-refines :
      (s : Session M) (c : Call) (stack : List Text)
      → s.form_stack ≡ slice stack
      → ((call s c).0.form_stack ≡ slice (spec_call stack c).0)
        × ((call s c).1 ≡ (spec_call stack c).1)
  unfolding call push_form top_form pop_form
  call-refines s (push name idle) stack e =
      (start_idle_timer-stack _ name (idle name) ∙ ap (λ r. r ++ (name ∷ [])) e, refl)
  call-refines s (pop idle) [] e = rw (e, pop_stack) (e, refl)
  call-refines s (pop idle) (x ∷ stack) e =
      let (y, ys, f) = snoc-cons (slice stack) x in
      let p = pop_stack-cons idle s y ys in
      let q = init-snoc (slice stack) x in
      let l = last_or-snoc [] (slice stack) x in
      rw (e, f) (p.0 ∙ (ap init (sym f) ∙ q), ap some (p.1 ∙ (ap (last_or []) (sym f) ∙ l)))
  call-refines s top [] e = rw e (refl, refl)
  call-refines s top (x ∷ stack) e =
      (e, ap some (ap (last_or []) e ∙ last_or-snoc [] (slice stack) x))

  -- A session whose slice of forms stands for a stack answers every sequence of PushForm, PopForm and
  -- TopForm as the stack does, and its slice stands for the stack after them.
  pub calls-refines :
      (s : Session M) (cs : List Call) (stack : List Text)
      → s.form_stack ≡ slice stack
      → ((calls s cs).1 ≡ (spec_calls stack cs).1)
        × ((calls s cs).0.form_stack ≡ slice (spec_calls stack cs).0)
  unfolding calls
  calls-refines s [] stack e = (refl, e)
  calls-refines s (c ∷ cs) stack e =
      let r = call-refines s c stack e in
      let rest = calls-refines (call s c).0 cs (spec_call stack c).0 r.0 in
      (rw (r.1, rest.0) refl, rest.1)

-- Every form with an idle timer is on the stack.
abbrev pub HasTimersOn : {M : Type 0} → Session M → Type 0
HasTimersOn s =
    (name : Text) (ms : ℕ) → lookup name s.idle_timers ≡ some ms → elem name s.form_stack ≡ true

elem-snoc : (a x : Text) (xs : List Text) → elem a (xs ++ (x ∷ [])) ≡ (elem a xs || text_beq x a)
unfolding elem
elem-snoc a x [] = ground arith
elem-snoc a x (y ∷ xs) = ground (arith, elem-snoc a x xs)

elem-init :
    (a x : Text) (xs : List Text)
    → elem a (x ∷ xs) ≡ (elem a (init (x ∷ xs)) || text_beq (last_or x xs) a)
unfolding elem
elem-init a x [] = ground arith
elem-init a x (y ∷ xs) = ground (arith, elem-init a y xs)

module _ {M : Type 0} where
  start_idle_timer-HasTimersOn :
      (s : Session M) (name : Text) (o : Option ℕ)
      → elem name s.form_stack ≡ true
      → HasTimersOn s
      → HasTimersOn (start_idle_timer s name o)
  unfolding start_idle_timer
  start_idle_timer-HasTimersOn s name none h v other ms' e = v other ms' e
  start_idle_timer-HasTimersOn s name (some ms) h v other ms' e =
      elim (Bool-cases (text_beq name other)) [
        | inl b ↦ rw (← (text_beq_iff name other).0 b) h
        | inr b ↦ v other ms' (ground (arith, lookup-insert name other ms s.idle_timers, e, b))
      ]

  push_form-HasTimersOn :
      (idle : Text → Option ℕ) (s : Session M) (name : Text)
      → HasTimersOn s
      → HasTimersOn (push_form idle s name)
  unfolding push_form
  push_form-HasTimersOn idle s name v =
      start_idle_timer-HasTimersOn (record s { form_stack = s.form_stack ++ (name ∷ []) }) name
        (idle name) (ground (arith, elem-snoc name name s.form_stack, text_beq_iff name name))
        (λ other ms e. ground (arith, elem-snoc other name s.form_stack, v other ms e))

  start_top-HasTimersOn :
      (idle : Text → Option ℕ) (s : Session M) (stack : List Text)
      → s.form_stack ≡ stack
      → HasTimersOn s
      → HasTimersOn (start_top idle s stack)
  unfolding start_top
  start_top-HasTimersOn idle s [] e v = v
  start_top-HasTimersOn idle s (x ∷ stack) e v =
      start_idle_timer-HasTimersOn s (last_or x stack) (idle (last_or x stack))
        (rw e (
          ground (
            arith,
            elem-init (last_or x stack) x stack,
            text_beq_iff (last_or x stack) (last_or x stack),
          )))
        v

  pop_stack-HasTimersOn :
      (idle : Text → Option ℕ) (s : Session M) (stack : List Text)
      → s.form_stack ≡ stack
      → HasTimersOn s
      → HasTimersOn (pop_stack idle s stack).0
  unfolding pop_stack stop_idle_timer
  pop_stack-HasTimersOn idle s [] e v = v
  pop_stack-HasTimersOn idle s (x ∷ stack) e v =
      start_top-HasTimersOn idle _ (init (x ∷ stack)) refl (λ other ms f. ground (
        arith,
        elem-init other x stack,
        lookup-remove (last_or x stack) other s.idle_timers,
        f,
        v other ms,
        ap (elem other) e,
        text_beq_iff (last_or x stack) other,
      ))

  -- After every sequence of PushForm, PopForm and TopForm, each form with an idle timer is on the stack,
  -- if it was so before.
  pub calls-HasTimersOn :
      (cs : List Call) (s : Session M) → HasTimersOn s → HasTimersOn (calls s cs).0
  unfolding calls call pop_form
  calls-HasTimersOn [] s v = v
  calls-HasTimersOn (push name idle ∷ cs) s v =
      calls-HasTimersOn cs (push_form idle s name) (push_form-HasTimersOn idle s name v)
  calls-HasTimersOn (pop idle ∷ cs) s v =
      calls-HasTimersOn cs (pop_form idle s).0 (pop_stack-HasTimersOn idle s s.form_stack refl v)
  calls-HasTimersOn (top ∷ cs) s v = calls-HasTimersOn cs s v
