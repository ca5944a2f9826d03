-- ===== src/Session/Answers.antt =====
-- The answers that resume a coroutine, and handleInbox as far as it leads to them. The interpreter and
-- the conversions of JSON are parameters.
use kalua.Prelude.{
  ℕ, ◌≡◌, refl, sym, ap, ◌∙◌, ◌⊎◌, inl, inr, Bool, true, false, Option, none, some, List, [], ◌∷◌,
  if◌then◌else◌, Option-cases,
}
use mathlib.Core.Path.{subst}
use kalua.Prelude.Text.{Text, bytes, text_eq, text_beq_iff, is_empty}
use kalua.Prelude.Dict.{lookup, lookup-remove}
use kalua.Session.{Session, delete_async, delete_sleep, delete_form_coro}
use kalua.Session.Inbox.{
  InboxMsgType, InboxMsg, TransportMsg, transport_types, find_type, convert, convert_option,
  to_inbox,
}

pub data Status : Type 0 where
  ended : Status
  yielded : Status
  failed : Text → Status

-- What the actor uses of its surroundings: one run of a coroutine with a value, up to its end or its
-- next yield, the cleanup of an operation, the error hook, and the conversions to Lua values. `others`
-- stands for the handlers of handleInbox that are not modelled.
pub record Lua (M V L : Type 0) : Type 0 where
  pub resume : Session M → ℕ → L → Session M × Status
  pub cancel : Session M → ℕ → Session M
  pub notify_error : Session M → Text → Session M
  pub fire_error : Session M → Text → Session M
  pub nil : L
  pub string : Text → L
  pub value : V → L
  pub files : Text → L
  pub saved_file : Text → L
  pub json : Text → L
  pub row_numbers : List ℕ → L
  pub others : Session M → InboxMsg V → Session M

module _ {M V L : Type 0} (lua : Lua M V L) where
  -- After Resume: an error is reported, and a coroutine that yields again has its operation cleaned up.
  unfoldable pub after_resume : ℕ → Session M × Status → Session M
  after_resume co (s, ended) = s
  after_resume co (s, yielded) = lua.cancel s co
  after_resume co (s, failed e) = lua.notify_error s e

  unfoldable pub resume_op : Session M → Text → L → Option ℕ → Session M
  unfolding after_resume delete_async
  resume_op s id val none = s
  resume_op s id val (some co) = after_resume co (lua.resume (delete_async s id) co val)

  -- resumeAsyncResp, resumeFilePickerResp, resumeFilePickerSaveResp, resumeTabulatorDataResp,
  -- resumeTabulatorSelectionResp and resumeChartImageResp, each with its value.
  unfoldable pub resume_async_resp : Session M → Text → L → Session M
  unfolding resume_op
  resume_async_resp s id val = resume_op s id val (lookup id s.async_ops)

  unfoldable pub after_sleep : Session M × Status → Session M
  after_sleep (s, ended) = s
  after_sleep (s, yielded) = s
  after_sleep (s, failed e) = lua.notify_error s e

  unfoldable pub resume_sleeping : Session M → Text → Option ℕ → Session M
  unfolding after_sleep delete_sleep
  resume_sleeping s id none = s
  resume_sleeping s id (some co) = after_sleep (lua.resume (delete_sleep s id) co lua.nil)

  unfoldable pub resume_sleep : Session M → Text → Session M
  unfolding resume_sleeping
  resume_sleep s id = resume_sleeping s id (lookup id s.sleep_ops)

  -- ResumeMain clears the form that main waits for.
  unfoldable pub after_form : Session M × Status → Session M × Bool
  after_form (s, ended) = (record s { suspended_form = [] }, true)
  after_form (s, yielded) = (record s { suspended_form = [] }, true)
  after_form (s, failed e) = (lua.notify_error s e, false)

  unfoldable pub resume_form : Session M → Text → L → Option ℕ → Session M × Bool
  unfolding after_form delete_form_coro
  resume_form s name val none = (s, false)
  resume_form s name val (some co) = after_form (lua.resume (delete_form_coro s name) co val)

  unfoldable pub resume_form_coro_with : Session M → Text → L → Session M × Bool
  unfolding resume_form
  resume_form_coro_with s name val = resume_form s name val (lookup name s.form_coros)

  abbrev pub or_nil : (Text → L) → Text → L
  or_nil f text = if is_empty text then lua.nil else f text

  abbrev pub raw_value : Option V → L
  raw_value none = lua.nil
  raw_value (some v) = lua.value v

  abbrev pub choice : Option V → Text → L
  choice none resp = lua.string resp
  choice (some v) resp = lua.value v

  -- handleInbox
  unfoldable pub handle_typed : InboxMsgType → Session M → InboxMsg V → Session M
  unfolding resume_async_resp resume_sleep
  handle_typed InboxMsgType.msgbox_choice s msg =
      resume_async_resp s msg.resp_id (choice msg.raw msg.resp)
  handle_typed InboxMsgType.popup_choice s msg = resume_async_resp s msg.resp_id (raw_value msg.raw)
  handle_typed InboxMsgType.popup_dismiss s msg = resume_async_resp s msg.resp_id lua.nil
  handle_typed InboxMsgType.clipboard_resp s msg =
      resume_async_resp s msg.resp_id (lua.string msg.resp)
  handle_typed InboxMsgType.file_picker_resp s msg =
      resume_async_resp s msg.resp_id (lua.files msg.resp)
  handle_typed InboxMsgType.file_picker_save_resp s msg =
      resume_async_resp s msg.resp_id (or_nil lua.saved_file msg.resp)
  handle_typed InboxMsgType.sleep_done s msg = resume_sleep s msg.resp_id
  handle_typed InboxMsgType.tabulator_data_resp s msg =
      resume_async_resp s msg.resp_id (or_nil lua.json msg.resp)
  handle_typed InboxMsgType.tabulator_selection_resp s msg =
      resume_async_resp s msg.resp_id (lua.row_numbers msg.select_rows)
  handle_typed InboxMsgType.chart_image_resp s msg =
      resume_async_resp s msg.resp_id (or_nil lua.string msg.resp)
  handle_typed InboxMsgType.selection_resp s msg =
      resume_async_resp s msg.resp_id (raw_value msg.raw)
  handle_typed _ s msg = lua.others s msg

  unfoldable pub handle_inbox : Session M → InboxMsg V → Session M
  unfolding handle_typed
  handle_inbox s msg = handle_typed msg.typ s msg

  unfoldable pub handle_option : Session M → Option (InboxMsg V) → Session M
  unfolding handle_inbox
  handle_option s none = s
  handle_option s (some msg) = handle_inbox s msg

  -- handleTransportInbox for every type but client_info.
  unfoldable pub handle_transport_inbox : Session M → TransportMsg V → Session M
  unfolding handle_option to_inbox
  handle_transport_inbox s msg = handle_option s (to_inbox msg)

-- The types of messages that come from timers, workers, bindings and the AI chat, not from the transport: of a
-- tab switch the transport makes an event, although there is a type for it.
unfoldable pub is_internal : InboxMsgType → Bool
is_internal InboxMsgType.no_type = true
is_internal InboxMsgType.timer = true
is_internal InboxMsgType.async_done = true
is_internal InboxMsgType.query = true
is_internal InboxMsgType.sleep_done = true
is_internal InboxMsgType.form_event = true
is_internal InboxMsgType.exec = true
is_internal InboxMsgType.grid_get_selected_resp = true
is_internal InboxMsgType.grid_get_row_resp = true
is_internal InboxMsgType.grid_delete_row_resp = true
is_internal InboxMsgType.grid_batch_delete_resp = true
is_internal InboxMsgType.grid_insert_row_resp = true
is_internal InboxMsgType.grid_update_row_resp = true
is_internal InboxMsgType.tab_change = true
is_internal InboxMsgType.ai_chat_send = true
is_internal InboxMsgType.ai_chat_stop = true
is_internal InboxMsgType.ai_chat_event = true
is_internal InboxMsgType.ai_tool_call = true
is_internal _ = false

abbrev AreExternal : List (Text × InboxMsgType × Bool) → Type 0
AreExternal [] = Unit {0}
AreExternal ((n, typ, takes) ∷ cases) = (is_internal typ ≡ false) × AreExternal cases

abbrev IsExternal : Option (InboxMsgType × Bool) → Type 0
IsExternal none = Unit {0}
IsExternal (some t) = is_internal t.0 ≡ false

-- The messages of the browser that answer a request, by their type, with the value that the coroutine is
-- resumed with.
pub data IsAnswer {M V L : Type 0} (lua : Lua M V L) (msg : TransportMsg V)
    : Text → L → Type 0 where
  msgbox_value :
      (v : V) → msg.value ≡ some v → IsAnswer lua msg (bytes "msgbox_choice") (lua.value v)
  msgbox_text : msg.value ≡ none → IsAnswer lua msg (bytes "msgbox_choice") (lua.string msg.choice)
  popup : (v : V) → msg.value ≡ some v → IsAnswer lua msg (bytes "popup_choice") (lua.value v)
  popup_empty : msg.value ≡ none → IsAnswer lua msg (bytes "popup_choice") lua.nil
  dismissed : IsAnswer lua msg (bytes "popup_dismiss") lua.nil
  clipboard : IsAnswer lua msg (bytes "clipboard_resp") (lua.string msg.choice)
  picked : IsAnswer lua msg (bytes "file_picker_resp") (lua.files msg.choice)
  saved :
      is_empty msg.choice ≡ false
      → IsAnswer lua msg (bytes "file_picker_save_resp") (lua.saved_file msg.choice)
  not_saved : is_empty msg.choice ≡ true → IsAnswer lua msg (bytes "file_picker_save_resp") lua.nil
  table_data :
      is_empty msg.choice ≡ false
      → IsAnswer lua msg (bytes "tabulator_data_resp") (lua.json msg.choice)
  no_table_data :
      is_empty msg.choice ≡ true → IsAnswer lua msg (bytes "tabulator_data_resp") lua.nil
  table_selection :
      IsAnswer lua msg (bytes "tabulator_selection_resp") (lua.row_numbers msg.select_rows)
  chart_image :
      is_empty msg.choice ≡ false
      → IsAnswer lua msg (bytes "chart_image_resp") (lua.string msg.choice)
  no_chart_image : is_empty msg.choice ≡ true → IsAnswer lua msg (bytes "chart_image_resp") lua.nil
  selection : (v : V) → msg.value ≡ some v → IsAnswer lua msg (bytes "selection_resp") (lua.value v)
  no_selection : msg.value ≡ none → IsAnswer lua msg (bytes "selection_resp") lua.nil

module _ {M V L : Type 0} (lua : Lua M V L) (s : Session M) where
  -- What an answer does: nothing if no coroutine waits under its identifier, and otherwise the resumption
  -- of that one with the value, with the identifier free again.
  abbrev pub IsResumed : Text → L → Session M → Type 0
  IsResumed id val t =
      ((lookup id s.async_ops ≡ none) × (t ≡ s))
      ⊎ ((co : ℕ) × (lookup id s.async_ops ≡ some co)
          × (lookup id (delete_async s id).async_ops ≡ none)
          × (t ≡ after_resume lua co (lua.resume (delete_async s id) co val)))

  deleted : (id : Text) → lookup id (delete_async s id).async_ops ≡ none
  unfolding delete_async
  deleted id = lookup-remove id id s.async_ops ∙ rw ((text_beq_iff id id).1 refl) refl

  resume_async_resp-IsResumed :
      (id : Text) (val : L) → IsResumed id val (resume_async_resp lua s id val)
  unfolding resume_async_resp
  resume_async_resp-IsResumed id val = elim (Option-cases (lookup id s.async_ops)) [
    | inl e ↦ inl (e, rw (e, resume_op) refl)
    | inr (co, e) ↦ inr (co, e, deleted id, rw (e, resume_op) refl)
  ]

  module _ (msg : TransportMsg V) where
    -- What handleInbox is given for a type of the switch.
    handled :
        (name : Text) (t : InboxMsgType × Bool)
        → msg.type_name ≡ name
        → find_type transport_types name ≡ some t
        → handle_transport_inbox lua s msg ≡ handle_typed lua t.0 s (convert msg t)
    unfolding handle_transport_inbox handle_option handle_inbox to_inbox convert_option convert
    handled name t e f =
        ap (λ n. handle_option lua s (convert_option msg (find_type transport_types n))) e
        ∙ ap (λ o. handle_option lua s (convert_option msg o)) f

    -- A type whose value is computed to val.
    resumed :
        (name : Text) (t : InboxMsgType × Bool) (computed val : L)
        → msg.type_name ≡ name
        → find_type transport_types name ≡ some t
        → handle_typed lua t.0 s (convert msg t) ≡ resume_async_resp lua s msg.id computed
        → computed ≡ val
        → IsResumed msg.id val (handle_transport_inbox lua s msg)
    resumed name t computed val e f g h =
        subst (λ u. IsResumed msg.id val u)
          (sym (handled name t e f ∙ g ∙ ap (λ c. resume_async_resp lua s msg.id c) h))
          (resume_async_resp-IsResumed msg.id val)

    answer-IsResumed :
        (name : Text) (val : L)
        → msg.type_name ≡ name
        → IsAnswer lua msg name val
        → IsResumed msg.id val (handle_transport_inbox lua s msg)
    unfolding find_type handle_typed convert
    answer-IsResumed _ _ e (msgbox_value v h) =
        resumed _ (InboxMsgType.msgbox_choice, true) _ _ e refl refl
          (ap (λ o. choice lua o msg.choice) h)
    answer-IsResumed _ _ e (msgbox_text h) =
        resumed _ (InboxMsgType.msgbox_choice, true) _ _ e refl refl
          (ap (λ o. choice lua o msg.choice) h)
    answer-IsResumed _ _ e (popup v h) =
        resumed _ (InboxMsgType.popup_choice, true) _ _ e refl refl (ap (raw_value lua) h)
    answer-IsResumed _ _ e (popup_empty h) =
        resumed _ (InboxMsgType.popup_choice, true) _ _ e refl refl (ap (raw_value lua) h)
    answer-IsResumed _ _ e dismissed =
        resumed _ (InboxMsgType.popup_dismiss, false) _ _ e refl refl refl
    answer-IsResumed _ _ e clipboard =
        resumed _ (InboxMsgType.clipboard_resp, false) _ _ e refl refl refl
    answer-IsResumed _ _ e picked =
        resumed _ (InboxMsgType.file_picker_resp, false) _ _ e refl refl refl
    answer-IsResumed _ _ e (saved h) =
        resumed _ (InboxMsgType.file_picker_save_resp, false) _ _ e refl refl (rw h refl)
    answer-IsResumed _ _ e (not_saved h) =
        resumed _ (InboxMsgType.file_picker_save_resp, false) _ _ e refl refl (rw h refl)
    answer-IsResumed _ _ e (table_data h) =
        resumed _ (InboxMsgType.tabulator_data_resp, false) _ _ e refl refl (rw h refl)
    answer-IsResumed _ _ e (no_table_data h) =
        resumed _ (InboxMsgType.tabulator_data_resp, false) _ _ e refl refl (rw h refl)
    answer-IsResumed _ _ e table_selection =
        resumed _ (InboxMsgType.tabulator_selection_resp, false) _ _ e refl refl refl
    answer-IsResumed _ _ e (chart_image h) =
        resumed _ (InboxMsgType.chart_image_resp, false) _ _ e refl refl (rw h refl)
    answer-IsResumed _ _ e (no_chart_image h) =
        resumed _ (InboxMsgType.chart_image_resp, false) _ _ e refl refl (rw h refl)
    answer-IsResumed _ _ e (selection v h) =
        resumed _ (InboxMsgType.selection_resp, true) _ _ e refl refl (ap (raw_value lua) h)
    answer-IsResumed _ _ e (no_selection h) =
        resumed _ (InboxMsgType.selection_resp, true) _ _ e refl refl (ap (raw_value lua) h)

  -- A message of the transport whose type answers a request resumes the coroutine that waits under the
  -- message's id, whatever it waits for, with the value that the type and the fields of the message give,
  -- when the identifier is free again; if none waits there, it changes nothing.
  pub handle_transport_inbox-IsResumed :
      (msg : TransportMsg V) (val : L)
      → IsAnswer lua msg msg.type_name val
      → IsResumed msg.id val (handle_transport_inbox lua s msg)
  handle_transport_inbox-IsResumed msg val a = answer-IsResumed msg msg.type_name val refl a
