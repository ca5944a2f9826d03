-- ===== src/Brain.antt =====
-- internal/common/brain.go: RouteOutbox, which turns a message of a session's outbox into commands of the
-- page. A command is a list of its fields, with the name of the command apart. F stands for the
-- floating-point numbers of the message.
pub mod Hands
mod Tests
use kalua.Prelude.{Bool, true, false, List, [], ◌∷◌, ◌++◌, if◌then◌else◌}
use kalua.Prelude.Text.{Text, bytes, text_beq, is_empty}

-- The fields of OutboxMsg that the router reads; `content` is its Data.
pub record OutboxMsg (F : Type 0) : Type 0 where
  pub typ : Text
  pub form : Text
  pub ctrl : Text
  pub html : Text
  pub selector : Text
  pub id : Text
  pub kind : Text
  pub text : Text
  pub msg : Text
  pub stack : Text
  pub accept : Text
  pub multiple : Bool
  pub content : Text
  pub modal : Bool
  pub gap_x : F
  pub gap_y : F
  pub grid : Bool
  pub grid_mode : Text
  pub grid_pk : Text
  pub grid_row : Text

pub data Value (F : Type 0) : Type 0 where
  str : Text → Value F
  num : F → Value F
  flag : Bool → Value F

pub record WasmCmd (F : Type 0) : Type 0 where
  pub cmd : Text
  pub fields : List (Text × Value F)

abbrev pub scope_of : Bool → Text
scope_of modal = if modal then bytes "#modals" else bytes "#stage"

module _ {F : Type 0} where
  abbrev pub command : Text → List (Text × Value F) → WasmCmd F
  command name fs = record { cmd = name; fields = fs }

  abbrev pub one : WasmCmd F → List (WasmCmd F)
  one c = c ∷ []

  abbrev pub optional : Text → Text → List (Text × Value F)
  optional key v = if is_empty v then [] else (key, str v) ∷ []

  -- componentCmd
  unfoldable pub component_cmd : Text → Text → Text → Text → OutboxMsg F → WasmCmd F
  component_cmd kind op content id msg = command (bytes "component") (
      (bytes "kind", str kind)
      ∷ (bytes "op", str op)
      ∷ (bytes "selector", str msg.selector)
      ∷ (bytes "form", str msg.form)
      ∷ (bytes "ctrl", str msg.ctrl)
      ∷ (optional (bytes "data") content ++ optional (bytes "id") id))

  unfoldable pub scan : Text → WasmCmd F
  scan scope = command (bytes "component_scan") ((bytes "scope", str scope) ∷ [])

  unfoldable pub modal_open : OutboxMsg F → WasmCmd F
  modal_open msg = command (bytes "modal_open") (
      (bytes "name", str msg.form)
      ∷ (bytes "html", str msg.html)
      ∷ (bytes "gap_x", num msg.gap_x)
      ∷ (bytes "gap_y", num msg.gap_y)
      ∷ (bytes "grid", flag msg.grid)
      ∷ (bytes "grid_mode", str msg.grid_mode)
      ∷ (bytes "grid_pk", str msg.grid_pk)
      ∷ (bytes "grid_row", str msg.grid_row)
      ∷ [])

  unfoldable pub render_form : OutboxMsg F → List (WasmCmd F)
  unfolding modal_open scan
  render_form msg =
      (if msg.modal
        then modal_open msg
        else command (bytes "stage") ((bytes "html", str msg.html) ∷ []))
      ∷ scan (scope_of msg.modal)
      ∷ []

  unfoldable pub update_control : OutboxMsg F → List (WasmCmd F)
  unfolding scan
  update_control msg =
      command (bytes "update_control")
        ((bytes "selector", str msg.selector) ∷ (bytes "html", str msg.html) ∷ [])
      ∷ scan (bytes "#stage")
      ∷ []

  unfoldable pub close_form : OutboxMsg F → WasmCmd F
  close_form msg =
      if msg.modal
      then command (bytes "modal_close") ((bytes "name", str msg.form) ∷ [])
      else command (bytes "form_close") (
          (bytes "name", str msg.form)
          ∷ (bytes "top", flag msg.modal)
          ∷ (bytes "destroy", flag true)
          ∷ [])

  -- The cases of the switch.
  unfoldable pub routes : List (Text × (OutboxMsg F → List (WasmCmd F)))
  unfolding component_cmd render_form update_control close_form
  routes =
      (bytes "init", λ msg. one (command (bytes "init") ((bytes "form", str msg.form) ∷ [])))
      ∷ (bytes "render_form", render_form)
      ∷ (bytes "update_control", update_control)
      ∷ (bytes "close_form", λ msg. one (close_form msg))
      ∷ (
        bytes "close_msgbox",
        λ msg. one (command (bytes "msgbox_close") ((bytes "id", str msg.id) ∷ [])),
      )
      ∷ (
        bytes "close_popup",
        λ msg. one (command (bytes "popup_close") ((bytes "id", str msg.id) ∷ [])),
      )
      ∷ (bytes "status", λ msg. one (command (bytes "status") ((bytes "text", str msg.text) ∷ [])))
      ∷ (bytes "status_close", λ msg. one (command (bytes "status_close") ([])))
      ∷ (
        bytes "focus",
        λ msg. one (
            command (bytes "focus")
              ((bytes "form", str msg.form) ∷ (bytes "ctrl", str msg.ctrl) ∷ [])),
      )
      ∷ (
        bytes "select_text",
        λ msg. one (
            command (bytes "select_text")
              ((bytes "form", str msg.form) ∷ (bytes "ctrl", str msg.ctrl) ∷ [])),
      )
      ∷ (
        bytes "select_range",
        λ msg. one (
            command (bytes "select_range") (
              (bytes "form", str msg.form)
              ∷ (bytes "ctrl", str msg.ctrl)
              ∷ (bytes "data", str msg.content)
              ∷ [])),
      )
      ∷ (
        bytes "get_selection",
        λ msg. one (
            command (bytes "get_selection") (
              (bytes "id", str msg.id)
              ∷ (bytes "form", str msg.form)
              ∷ (bytes "ctrl", str msg.ctrl)
              ∷ [])),
      )
      ∷ (bytes "quit", λ msg. one (command (bytes "quit") ([])))
      ∷ (bytes "reload", λ msg. one (command (bytes "reload") ([])))
      ∷ (
        bytes "error",
        λ msg. one (
            command (bytes "error")
              ((bytes "msg", str msg.msg) ∷ (bytes "stack", str msg.stack) ∷ [])),
      )
      ∷ (bytes "bell", λ msg. one (command (bytes "bell") ([])))
      ∷ (
        bytes "clipboard_set",
        λ msg. one (command (bytes "clipboard_set") ((bytes "text", str msg.text) ∷ [])),
      )
      ∷ (
        bytes "clipboard_get",
        λ msg. one (command (bytes "clipboard_get") ((bytes "id", str msg.id) ∷ [])),
      )
      ∷ (
        bytes "pick_file",
        λ msg. one (
            command (bytes "pick_file") (
              (bytes "id", str msg.id)
              ∷ (bytes "accept", str msg.accept)
              ∷ (bytes "multiple", flag msg.multiple)
              ∷ [])),
      )
      ∷ (
        bytes "pick_file_save",
        λ msg. one (
            command (bytes "pick_file_save")
              ((bytes "id", str msg.id) ∷ (bytes "data", str msg.content) ∷ [])),
      )
      ∷ (
        bytes "tabulator_update",
        λ msg. one (component_cmd (bytes "tabulator") (bytes "update") msg.content [] msg),
      )
      ∷ (
        bytes "tabulator_remote_data",
        λ msg. one (component_cmd (bytes "tabulator") (bytes "remote_data") msg.content [] msg),
      )
      ∷ (
        bytes "tabulator_refresh",
        λ msg. one (component_cmd (bytes "tabulator") (bytes "refresh") [] [] msg),
      )
      ∷ (
        bytes "tabulator_destroy",
        λ msg. one (component_cmd (bytes "tabulator") (bytes "destroy") [] [] msg),
      )
      ∷ (
        bytes "tabulator_get_data",
        λ msg. one (component_cmd (bytes "tabulator") (bytes "get_data") [] msg.id msg),
      )
      ∷ (
        bytes "tabulator_get_selection",
        λ msg. one (component_cmd (bytes "tabulator") (bytes "get_selection") [] msg.id msg),
      )
      ∷ (
        bytes "looper_db_batch",
        λ msg. one (component_cmd (bytes "looper") (bytes "batch") msg.content [] msg),
      )
      ∷ (
        bytes "looper_refresh",
        λ msg. one (component_cmd (bytes "looper") (bytes "refresh") [] [] msg),
      )
      ∷ (
        bytes "chart_update",
        λ msg. one (component_cmd (bytes "chart") (bytes "update") msg.content [] msg),
      )
      ∷ (
        bytes "chart_options",
        λ msg. one (component_cmd (bytes "chart") (bytes "options") msg.content [] msg),
      )
      ∷ (
        bytes "chart_resize",
        λ msg. one (component_cmd (bytes "chart") (bytes "resize") msg.content [] msg),
      )
      ∷ (
        bytes "chart_destroy",
        λ msg. one (component_cmd (bytes "chart") (bytes "destroy") [] [] msg),
      )
      ∷ (
        bytes "chart_get_image",
        λ msg. one (component_cmd (bytes "chart") (bytes "get_image") [] msg.id msg),
      )
      ∷ (
        bytes "tab_set_tab",
        λ msg. one (component_cmd (bytes "tab") (bytes "set_tab") msg.content [] msg),
      )
      ∷ (
        bytes "tab_update",
        λ msg. one (component_cmd (bytes "tab") (bytes "update") msg.content [] msg),
      )
      ∷ (
        bytes "msgbox",
        λ msg. one (
            command (bytes "msgbox") (
              (bytes "id", str msg.id)
              ∷ (bytes "kind", str msg.kind)
              ∷ (bytes "html", str msg.html)
              ∷ [])),
      )
      ∷ (
        bytes "popup",
        λ msg. one (
            command (bytes "popup") ((bytes "id", str msg.id) ∷ (bytes "html", str msg.html) ∷ [])),
      )
      ∷ []

  unfoldable pub find_route :
      List (Text × (OutboxMsg F → List (WasmCmd F))) → Text → OutboxMsg F → List (WasmCmd F)
  find_route [] name msg = []
  find_route ((n, f) ∷ rest) name msg = if text_beq n name then f msg else find_route rest name msg

  -- RouteOutbox; a message of another type is dropped.
  unfoldable pub route_outbox : OutboxMsg F → List (WasmCmd F)
  unfolding routes find_route
  route_outbox msg = find_route routes msg.typ msg
