-- ===== src/Session/Tests.antt =====
-- Runs of the session actor, and the theorems at inputs that meet their hypotheses.
use kalua.Prelude.{ℕ, ◌≡◌, refl, Option, none, some, List, [], ◌∷◌, arith}
use kalua.Prelude.Text.{Text, bytes, text_eq}
use kalua.Prelude.Dict.{lookup, insert, remove}
use kalua.Session.{
  Session, push_form, pop_form, pop_stack, top_form, start_top, start_idle_timer, stop_idle_timer,
  show_msgbox,
}
use kalua.Session.Stack.{
  Call, push, pop, top, call, calls, spec_calls, slice, HasTimersOn, calls-refines,
  calls-HasTimersOn,
}
use kalua.Session.Waiting.{IsApart, waits, show_msgbox_lost}
use kalua.Session.Inbox.{InboxMsgType, InboxMsg, TransportMsg}
use kalua.Session.Answers.{
  Lua, ended, msgbox_value, IsResumed, handle_transport_inbox, handle_transport_inbox-IsResumed,
}

abbrev empty : Session Text
empty = record {
  form_stack = [];
  idle_timers = [];
  form_coros = [];
  async_ops = [];
  sleep_ops = [];
  outbox = [];
  suspended_form = [];
}

-- Only `main` has a handler of on_idle.
abbrev idle : Text → Option ℕ
idle [] = none
idle (c ∷ name) = some 1000

abbrev visits : List Call
visits =
    push (bytes "main") idle
    ∷ push (bytes "edit") idle
    ∷ top
    ∷ pop idle
    ∷ top
    ∷ pop idle
    ∷ pop idle
    ∷ []

visits_results :
    (calls empty visits).1
    ≡ none
      ∷ none
      ∷ some (bytes "edit")
      ∷ some (bytes "edit")
      ∷ some (bytes "main")
      ∷ some (bytes "main")
      ∷ some []
      ∷ []
unfolding calls call push_form pop_form pop_stack top_form start_top start_idle_timer
    stop_idle_timer insert remove
visits_results = refl

calls-refines_example :
    ((calls empty visits).1 ≡ (spec_calls [] visits).1)
    × ((calls empty visits).0.form_stack ≡ slice (spec_calls [] visits).0)
calls-refines_example = calls-refines empty visits [] refl

no_timers : HasTimersOn empty
unfolding lookup
no_timers name ms e = cc

calls-HasTimersOn_example : HasTimersOn (calls empty visits).0
calls-HasTimersOn_example = calls-HasTimersOn visits empty no_timers

abbrev box : Text
box = bytes "box"

abbrev waiting : Session Text
waiting = record {
  form_stack = [];
  idle_timers = [];
  form_coros = [];
  async_ops = (box, 7) ∷ [];
  sleep_ops = [];
  outbox = [];
  suspended_form = [];
}

box_found : lookup box waiting.async_ops ≡ some 7
unfolding lookup
box_found = refl

two-IsApart : IsApart (record { session = waiting; running = 8 ∷ [] })
two-IsApart c = ground arith

show_msgbox_lost_example :
    waits 7 (show_msgbox waiting 8 box (bytes "msgbox_1") (λ id. id)).async_ops ≡ 0
show_msgbox_lost_example =
    show_msgbox_lost waiting [] 8 7 box (bytes "msgbox_1") (λ id. id) refl box_found two-IsApart

-- An interpreter whose coroutines end at once.
abbrev quick : Lua Text ℕ (Option ℕ)
quick = record {
  resume = λ s co v. (s, ended);
  cancel = λ s co. s;
  notify_error = λ s e. s;
  fire_error = λ s e. s;
  nil = none;
  string = λ t. none;
  value = λ v. some v;
  files = λ t. none;
  saved_file = λ t. none;
  json = λ t. none;
  row_numbers = λ rows. none;
  others = λ s msg. s;
}

abbrev answer : TransportMsg ℕ
answer = record {
  type_name = bytes "msgbox_choice";
  form = [];
  ctrl = [];
  event = [];
  timer = [];
  id = box;
  choice = bytes "yes";
  value = some 4;
  select_rows = [];
}

handle_transport_inbox-IsResumed_example :
    IsResumed quick waiting box (some 4) (handle_transport_inbox quick waiting answer)
handle_transport_inbox-IsResumed_example =
    handle_transport_inbox-IsResumed quick waiting answer (some 4) (msgbox_value 4 refl)

abbrev taken_over : InboxMsg ℕ
taken_over = record {
  typ = InboxMsgType.msgbox_choice;
  form = [];
  ctrl = [];
  event = [];
  timer = [];
  resp_id = box;
  resp = bytes "yes";
  raw = some 4;
  select_rows = [];
}
