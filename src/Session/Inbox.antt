-- ===== src/Session/Inbox.antt =====
-- The inbox of the session actor: types.go and the conversion of a message of the transport.
use kalua.Prelude.{ℕ, Bool, true, false, Option, none, some, List, [], ◌∷◌, if◌then◌else◌}
use kalua.Prelude.Text.{Text, bytes, text_beq}

pub data InboxMsgType : Type 0 where
  no_type : InboxMsgType
  ws_event : InboxMsgType
  timer : InboxMsgType
  async_done : InboxMsgType
  msgbox_choice : InboxMsgType
  popup_choice : InboxMsgType
  popup_dismiss : InboxMsgType
  clipboard_resp : InboxMsgType
  file_picker_resp : InboxMsgType
  query : InboxMsgType
  sleep_done : InboxMsgType
  tabulator_data_resp : InboxMsgType
  tabulator_selection_resp : InboxMsgType
  tabulator_ajax_request : InboxMsgType
  looper_scroll_request : InboxMsgType
  looper_refresh_request : InboxMsgType
  chart_image_resp : InboxMsgType
  form_event : InboxMsgType
  exec : InboxMsgType
  selection_resp : InboxMsgType
  file_picker_save_resp : InboxMsgType
  grid_form_open : InboxMsgType
  grid_form_save : InboxMsgType
  grid_form_cancel : InboxMsgType
  grid_row_delete : InboxMsgType
  grid_batch_delete : InboxMsgType
  grid_get_selected : InboxMsgType
  grid_get_selected_resp : InboxMsgType
  grid_get_row : InboxMsgType
  grid_get_row_resp : InboxMsgType
  grid_delete_row : InboxMsgType
  grid_delete_row_resp : InboxMsgType
  grid_batch_delete_req : InboxMsgType
  grid_batch_delete_resp : InboxMsgType
  grid_insert_row : InboxMsgType
  grid_insert_row_resp : InboxMsgType
  grid_update_row : InboxMsgType
  grid_update_row_resp : InboxMsgType
  tree_data_request : InboxMsgType
  tab_change : InboxMsgType
  ai_chat_send : InboxMsgType
  ai_chat_stop : InboxMsgType
  ai_chat_event : InboxMsgType
  ai_tool_call : InboxMsgType

-- A message of the transport; V stands for the values of JSON.
pub record TransportMsg (V : Type 0) : Type 0 where
  pub type_name : Text
  pub form : Text
  pub ctrl : Text
  pub event : Text
  pub timer : Text
  pub id : Text
  pub choice : Text
  pub value : Option V
  pub select_rows : List ℕ

-- A message of the inbox, with the fields that can come from the transport.
pub record InboxMsg (V : Type 0) : Type 0 where
  pub typ : InboxMsgType
  pub form : Text
  pub ctrl : Text
  pub event : Text
  pub timer : Text
  pub resp_id : Text
  pub resp : Text
  pub raw : Option V
  pub select_rows : List ℕ

-- The cases of the switch of handleTransportInbox but for client_info: the type, and whether the value
-- is taken over.
abbrev pub transport_types : List (Text × InboxMsgType × Bool)
transport_types =
    (bytes "event", InboxMsgType.ws_event, true)
    ∷ (bytes "msgbox_choice", InboxMsgType.msgbox_choice, true)
    ∷ (bytes "popup_choice", InboxMsgType.popup_choice, true)
    ∷ (bytes "popup_dismiss", InboxMsgType.popup_dismiss, false)
    ∷ (bytes "clipboard_resp", InboxMsgType.clipboard_resp, false)
    ∷ (bytes "file_picker_resp", InboxMsgType.file_picker_resp, false)
    ∷ (bytes "file_picker_save_resp", InboxMsgType.file_picker_save_resp, false)
    ∷ (bytes "tabulator_data_resp", InboxMsgType.tabulator_data_resp, false)
    ∷ (bytes "tabulator_selection_resp", InboxMsgType.tabulator_selection_resp, false)
    ∷ (bytes "tabulator_ajax_request", InboxMsgType.tabulator_ajax_request, true)
    ∷ (bytes "looper_scroll_request", InboxMsgType.looper_scroll_request, true)
    ∷ (bytes "looper_refresh_request", InboxMsgType.looper_refresh_request, true)
    ∷ (bytes "chart_image_resp", InboxMsgType.chart_image_resp, false)
    ∷ (bytes "selection_resp", InboxMsgType.selection_resp, true)
    ∷ (bytes "grid_form_open", InboxMsgType.grid_form_open, true)
    ∷ (bytes "grid_form_save", InboxMsgType.grid_form_save, true)
    ∷ (bytes "grid_form_cancel", InboxMsgType.grid_form_cancel, true)
    ∷ (bytes "grid_row_delete", InboxMsgType.grid_row_delete, true)
    ∷ (bytes "grid_batch_delete", InboxMsgType.grid_batch_delete, true)
    ∷ (bytes "grid_get_selected", InboxMsgType.grid_get_selected, true)
    ∷ (bytes "grid_get_row", InboxMsgType.grid_get_row, true)
    ∷ (bytes "grid_delete_row", InboxMsgType.grid_delete_row, true)
    ∷ (bytes "grid_batch_delete_req", InboxMsgType.grid_batch_delete_req, true)
    ∷ (bytes "grid_insert_row", InboxMsgType.grid_insert_row, true)
    ∷ (bytes "grid_update_row", InboxMsgType.grid_update_row, true)
    ∷ (bytes "tree_data_request", InboxMsgType.tree_data_request, false)
    ∷ (bytes "tab_change", InboxMsgType.ws_event, true)
    ∷ []

unfoldable pub find_type : List (Text × InboxMsgType × Bool) → Text → Option (InboxMsgType × Bool)
find_type [] name = none
find_type ((n, typ, takes) ∷ cases) name =
    let rest = find_type cases name in if text_beq n name then some (typ, takes) else rest

abbrev pub taken : {V : Type 0} → Bool → Option V → Option V
taken false o = none
taken true o = o

module _ {V : Type 0} where
  unfoldable pub convert : TransportMsg V → InboxMsgType × Bool → InboxMsg V
  convert msg (typ, takes) = record {
    typ = typ;
    form = msg.form;
    ctrl = msg.ctrl;
    event = msg.event;
    timer = msg.timer;
    resp_id = msg.id;
    resp = msg.choice;
    raw = taken takes msg.value;
    select_rows = msg.select_rows;
  }

  unfoldable pub convert_option :
      TransportMsg V → Option (InboxMsgType × Bool) → Option (InboxMsg V)
  unfolding convert
  convert_option msg none = none
  convert_option msg (some t) = some (convert msg t)

  -- The message that handleTransportInbox hands on; `none` is a client_info and an unknown type.
  unfoldable pub to_inbox : TransportMsg V → Option (InboxMsg V)
  unfolding find_type convert_option
  to_inbox msg = convert_option msg (find_type transport_types msg.type_name)
