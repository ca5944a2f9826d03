-- ===== src/App.antt =====
-- internal/vm/app.go: the loop that drives the main coroutine of a script. One Resume of it is a
-- parameter; R is the state of the interpreter.
pub mod Rounds
pub mod Loop
mod Tests
use kalua.Prelude.{ℕ, zero, suc, ◌≡◌, Bool, true, false, Option, none, some, [], if◌then◌else◌}
use kalua.Prelude.Text.{Text, is_empty}

pub data PendingKind : Type 0 where
  no_kind : PendingKind
  sleep : PendingKind
  form_show : PendingKind
  db_query : PendingKind
  form_show_value : PendingKind

-- The fields of PendingOp that the loop reads.
pub record PendingOp : Type 0 where
  pub kind : PendingKind
  pub form : Text

pub record App (R : Type 0) : Type 0 where
  pub state : R
  pub quitting : Bool
  pub pending : Option PendingOp
  pub suspended_form : Text

-- The result of a Resume.
pub data ResumeState : Type 0 where
  failed : Text → ResumeState
  ended : ResumeState
  yielded : ResumeState
  unknown : ResumeState

-- What Run returns. ErrSuspended is `suspended`; `internal` is one of the two errors of its own.
pub data RunResult : Type 0 where
  finished : RunResult
  error : Text → RunResult
  suspended : RunResult
  internal : RunResult
  out_of_fuel : RunResult

pub data Next (R : Type 0) : Type 0 where
  stop : App R → RunResult → Next R
  again : App R → Next R

module _ {R : Type 0} where
  unfoldable pub request_quit : App R → App R
  request_quit a = record a { quitting = true }

  -- Block, up to its Yield.
  unfoldable pub block : App R → PendingOp → App R
  block a op = record a { pending = some op }

  -- The switch on the kind of the pending operation. A sleep, a query and a form with a value are in no
  -- case of it.
  unfoldable pub on_kind : App R → PendingKind → Text → Next R
  on_kind a form_show form = stop (record a { suspended_form = form }) suspended
  on_kind a no_kind form = stop a internal
  on_kind a sleep form = again a
  on_kind a db_query form = again a
  on_kind a form_show_value form = again a

  unfoldable pub on_pending : App R → Option PendingOp → Next R
  unfolding on_kind
  on_pending a none = stop a suspended
  on_pending a (some op) = on_kind a op.kind op.form

  unfoldable pub on_status : App R → ResumeState → Next R
  unfolding on_pending
  on_status a (failed e) = stop a (error e)
  on_status a ended = stop a finished
  on_status a yielded = on_pending (record a { pending = none }) a.pending
  on_status a unknown = stop a internal

  -- The body of the loop after a Resume.
  unfoldable pub after_main : App R × ResumeState → Next R
  unfolding on_status
  after_main (a, st) = if a.quitting then stop a finished else on_status a st

  unfoldable pub next_round : (App R → App R × RunResult) → Next R → App R × RunResult
  next_round loop (stop a out) = (a, out)
  next_round loop (again a) = loop a

  -- Run, for as many rounds as there is fuel. The flag of a Resume is whether the entry function is
  -- passed, which is so at the first only.
  unfoldable pub run_main :
      (App R → Bool → App R × ResumeState) → ℕ → Bool → App R → App R × RunResult
  unfolding after_main next_round
  run_main resume zero first a = (a, out_of_fuel)
  run_main resume (suc fuel) first a =
      next_round (λ b. run_main resume fuel false b) (after_main (resume a first))

  -- ResumeMain, which the session calls when the form is closed.
  unfoldable pub resume_main : App R → App R
  resume_main a = if is_empty a.suspended_form then a else record a { suspended_form = [] }
