-- ===== src/App/Rounds.antt =====
-- One round of Run: what it makes of a Resume.
use kalua.Prelude.{
  ◌≡◌, refl, ap, ◌∙◌, ◌⊎◌, inl, inr, Bool, true, false, Option, none, some, if◌then◌else◌,
}
use kalua.Prelude.Text.{Text}
use kalua.App.{
  App, ResumeState, failed, ended, yielded, unknown, PendingOp, PendingKind, no_kind, sleep,
  form_show, db_query, form_show_value, finished, error, suspended, internal, Next, stop, again,
  after_main, on_status, on_pending, on_kind,
}

-- One Resume and what Run makes of it: the state that the interpreter leaves and how the coroutine stands,
-- on the left, and on the right the return, or the state in which it is resumed again.
pub data Round {R : Type 0} : App R × ResumeState → Next R → Type 0 where
  quits : (a : App R) (st : ResumeState) → a.quitting ≡ true → Round (a, st) (stop a finished)
  fails : (a : App R) (e : Text) → a.quitting ≡ false → Round (a, failed e) (stop a (error e))
  ends : (a : App R) → a.quitting ≡ false → Round (a, ended) (stop a finished)
  strange : (a : App R) → a.quitting ≡ false → Round (a, unknown) (stop a internal)
  works_async :
      (a : App R)
      → a.quitting ≡ false
      → a.pending ≡ none
      → Round (a, yielded) (stop (record a { pending = none }) suspended)
  shows_form :
      (a : App R) (op : PendingOp)
      → a.quitting ≡ false
      → a.pending ≡ some op
      → op.kind ≡ form_show
      → Round (a, yielded) (stop (record a { pending = none; suspended_form = op.form }) suspended)
  has_no_kind :
      (a : App R) (op : PendingOp)
      → a.quitting ≡ false
      → a.pending ≡ some op
      → op.kind ≡ no_kind
      → Round (a, yielded) (stop (record a { pending = none }) internal)
  does_not_wait :
      (a : App R) (op : PendingOp)
      → a.quitting ≡ false
      → a.pending ≡ some op
      → (op.kind ≡ sleep) ⊎ (op.kind ≡ db_query) ⊎ (op.kind ≡ form_show_value)
      → Round (a, yielded) (again (record a { pending = none }))

module _ {R : Type 0} where
  on_kind-Round :
      (a : App R) (op : PendingOp) (k : PendingKind)
      → a.quitting ≡ false
      → a.pending ≡ some op
      → op.kind ≡ k
      → Round (a, yielded) (on_kind (record a { pending = none }) k op.form)
  unfolding on_kind
  on_kind-Round a op no_kind q p e = has_no_kind a op q p e
  on_kind-Round a op form_show q p e = shows_form a op q p e
  on_kind-Round a op sleep q p e = does_not_wait a op q p (inl e)
  on_kind-Round a op db_query q p e = does_not_wait a op q p (inr (inl e))
  on_kind-Round a op form_show_value q p e = does_not_wait a op q p (inr (inr e))

  on_pending-Round :
      (a : App R) (o : Option PendingOp)
      → a.quitting ≡ false
      → a.pending ≡ o
      → Round (a, yielded) (on_pending (record a { pending = none }) o)
  unfolding on_pending
  on_pending-Round a none q p = works_async a q p
  on_pending-Round a (some op) q p = on_kind-Round a op op.kind q p refl

  on_status-Round :
      (a : App R) (st : ResumeState) → a.quitting ≡ false → Round (a, st) (on_status a st)
  unfolding on_status
  on_status-Round a (failed e) q = fails a e q
  on_status-Round a ended q = ends a q
  on_status-Round a unknown q = strange a q
  on_status-Round a yielded q = on_pending-Round a a.pending q refl

  guarded-Round :
      (a : App R) (st : ResumeState) (q : Bool)
      → a.quitting ≡ q
      → Round (a, st) (if q then stop a finished else on_status a st)
  guarded-Round a st true e = quits a st e
  guarded-Round a st false e = on_status-Round a st e

  pub after_main-Round : (x : App R × ResumeState) → Round x (after_main x)
  unfolding after_main
  after_main-Round (a, st) = guarded-Round a st a.quitting refl

  not_quitting :
      (a : App R) (st : ResumeState) → a.quitting ≡ false → after_main (a, st) ≡ on_status a st
  unfolding after_main
  not_quitting a st q = ap (λ b. if b then stop a finished else on_status a st) q

  waits_for :
      (a : App R) (op : PendingOp) (k : PendingKind)
      → a.quitting ≡ false
      → a.pending ≡ some op
      → op.kind ≡ k
      → after_main (a, yielded) ≡ on_kind (record a { pending = none }) k op.form
  unfolding on_status on_pending
  waits_for a op k q p e =
      not_quitting a yielded q
      ∙ ap (λ o. on_pending (record a { pending = none }) o) p
      ∙ ap (λ j. on_kind (record a { pending = none }) j op.form) e

  does_not_wait_lem :
      (a : App R) (op : PendingOp)
      → a.quitting ≡ false
      → a.pending ≡ some op
      → (op.kind ≡ sleep) ⊎ (op.kind ≡ db_query) ⊎ (op.kind ≡ form_show_value)
      → after_main (a, yielded) ≡ again (record a { pending = none })
  unfolding on_kind
  does_not_wait_lem a op q p (inl e) = waits_for a op sleep q p e
  does_not_wait_lem a op q p (inr (inl e)) = waits_for a op db_query q p e
  does_not_wait_lem a op q p (inr (inr e)) = waits_for a op form_show_value q p e

  pub Round-after_main : (x : App R × ResumeState) (n : Next R) → Round x n → after_main x ≡ n
  unfolding after_main on_status on_pending on_kind
  Round-after_main _ _ (quits a st q) = ap (λ b. if b then stop a finished else on_status a st) q
  Round-after_main _ _ (fails a e q) = not_quitting a (failed e) q
  Round-after_main _ _ (ends a q) = not_quitting a ended q
  Round-after_main _ _ (strange a q) = not_quitting a unknown q
  Round-after_main _ _ (works_async a q p) =
      not_quitting a yielded q ∙ ap (λ o. on_pending (record a { pending = none }) o) p
  Round-after_main _ _ (shows_form a op q p e) = waits_for a op form_show q p e
  Round-after_main _ _ (has_no_kind a op q p e) = waits_for a op no_kind q p e
  Round-after_main _ _ (does_not_wait a op q p e) = does_not_wait_lem a op q p e
