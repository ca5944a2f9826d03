-- ===== src/Session.antt =====
-- internal/session/session.go: the session actor. Here are its state, the stack of forms with their
-- idle timers, and the tables of suspended coroutines. A coroutine is a number. The mutexes stand round
-- single reads and writes of a table, which are one function each.
pub mod Inbox
pub mod Stack
pub mod Waiting
pub mod Answers
mod Tests
use kalua.Prelude.{
  ℕ, ◌+◌, ◌≡◌, Bool, true, false, Option, none, some, List, [], ◌∷◌, ◌++◌, ltb, if◌then◌else◌,
  length,
}
use kalua.Prelude.Text.{Text, text_eq, is_empty}
use kalua.Prelude.Dict.{Dict, lookup, insert, remove}

-- The fields of Session that are used here; M stands for the messages of the outbox, and an idle timer is
-- its delay in milliseconds. The form that the app's main waits for is with them.
pub record Session (M : Type 0) : Type 0 where
  pub form_stack : List Text
  pub idle_timers : Dict Text ℕ
  pub form_coros : Dict Text ℕ
  pub async_ops : Dict Text ℕ
  pub sleep_ops : Dict Text ℕ
  pub outbox : List M
  pub suspended_form : Text

abbrev pub outbox_cap : ℕ
outbox_cap = 64

abbrev pub last_or : Text → List Text → Text
last_or d [] = d
last_or d (x ∷ xs) = last_or x xs

abbrev pub init : List Text → List Text
init [] = []
init (x ∷ []) = []
init (x ∷ y ∷ xs) = x ∷ init (y ∷ xs)

module _ {M : Type 0} where
  -- SendOutbox drops a message when the channel is full.
  unfoldable pub send_outbox : Session M → M → Session M
  send_outbox s m =
      if ltb (length s.outbox) outbox_cap then record s { outbox = s.outbox ++ (m ∷ []) } else s

  -- startIdleTimer: `idle` is the delay, if the form has a handler of on_idle. Without one a timer of the
  -- form is stopped, and stays in the map.
  unfoldable pub start_idle_timer : Session M → Text → Option ℕ → Session M
  start_idle_timer s name none = s
  start_idle_timer s name (some ms) = record s { idle_timers = insert name ms s.idle_timers }

  unfoldable pub stop_idle_timer : Session M → Text → Session M
  stop_idle_timer s name = record s { idle_timers = remove name s.idle_timers }

  unfoldable pub push_form : (Text → Option ℕ) → Session M → Text → Session M
  unfolding start_idle_timer
  push_form idle s name =
      start_idle_timer (record s { form_stack = s.form_stack ++ (name ∷ []) }) name (idle name)

  unfoldable pub top_form : Session M → Text
  top_form s = last_or [] s.form_stack

  -- The new top gets its timer.
  unfoldable pub start_top : (Text → Option ℕ) → Session M → List Text → Session M
  unfolding start_idle_timer
  start_top idle s [] = s
  start_top idle s (x ∷ stack) = start_idle_timer s (last_or x stack) (idle (last_or x stack))

  unfoldable pub pop_stack : (Text → Option ℕ) → Session M → List Text → Session M × Text
  unfolding stop_idle_timer start_top
  pop_stack idle s [] = (s, [])
  pop_stack idle s (x ∷ stack) =
      let name = last_or x stack in
      let rest = init (x ∷ stack) in
      (start_top idle (stop_idle_timer (record s { form_stack = rest }) name) rest, name)

  unfoldable pub pop_form : (Text → Option ℕ) → Session M → Session M × Text
  unfolding pop_stack
  pop_form idle s = pop_stack idle s s.form_stack

  -- The tables of suspended coroutines.
  unfoldable pub store_async : Session M → Text → ℕ → Session M
  store_async s op_id co = record s { async_ops = insert op_id co s.async_ops }

  unfoldable pub delete_async : Session M → Text → Session M
  delete_async s op_id = record s { async_ops = remove op_id s.async_ops }

  unfoldable pub store_sleep : Session M → Text → ℕ → Session M
  store_sleep s sleep_id co = record s { sleep_ops = insert sleep_id co s.sleep_ops }

  unfoldable pub delete_sleep : Session M → Text → Session M
  delete_sleep s sleep_id = record s { sleep_ops = remove sleep_id s.sleep_ops }

  -- StoreFormCoro
  unfoldable pub store_form_coro : Session M → Text → ℕ → Session M
  store_form_coro s name co = record s { form_coros = insert name co s.form_coros }

  unfoldable pub delete_form_coro : Session M → Text → Session M
  delete_form_coro s name = record s { form_coros = remove name s.form_coros }

  -- ShowMsgbox; `generated` is the identifier made of the time, and `msg` what is sent for one.
  unfoldable pub show_msgbox : Session M → ℕ → Text → Text → (Text → M) → Session M
  unfolding store_async send_outbox
  show_msgbox s co opts_id generated msg =
      let id = if is_empty opts_id then generated else opts_id in
      send_outbox (store_async s id co) (msg id)

  -- RequestClipboardGet, RequestTabulatorGetData, RequestTabulatorGetSelection, RequestChartGetImage,
  -- RequestFilePicker and RequestFilePickerSave.
  unfoldable pub request : Session M → ℕ → Text → (Text → M) → Session M
  unfolding store_async send_outbox
  request s co generated msg = send_outbox (store_async s generated co) (msg generated)
