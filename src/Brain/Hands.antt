-- ===== src/Brain/Hands.antt =====
-- The commands of the router against the switch of app.minimal.js that carries them out.
use kalua.Prelude.{
  ◌≡◌, refl, ◌⊎◌, inl, inr, Bool, true, false, List, [], ◌∷◌, if◌then◌else◌, elem, Bool-cases,
}
use mathlib.Core.Path.{subst}
use kalua.Prelude.Text.{Text, bytes, text_eq, text_beq, text_beq_iff}
use kalua.Brain.{
  OutboxMsg, Value, WasmCmd, command, one, component_cmd, scan, modal_open, scope_of, render_form,
  update_control, close_form, routes, find_route, route_outbox,
}

-- handleCommand of internal/cli/wasm_assets/app.minimal.js.
abbrev pub hands : List Text
hands =
    bytes "init"
    ∷ bytes "stage"
    ∷ bytes "modal_open"
    ∷ bytes "modal_close"
    ∷ bytes "form_close"
    ∷ bytes "update_control"
    ∷ bytes "msgbox"
    ∷ bytes "msgbox_close"
    ∷ bytes "popup"
    ∷ bytes "popup_close"
    ∷ bytes "status"
    ∷ bytes "status_close"
    ∷ bytes "error"
    ∷ bytes "quit"
    ∷ bytes "reload"
    ∷ bytes "focus"
    ∷ bytes "bell"
    ∷ bytes "clipboard_set"
    ∷ bytes "clipboard_get"
    ∷ bytes "pick_file"
    ∷ bytes "pick_file_save"
    ∷ bytes "select_text"
    ∷ bytes "select_range"
    ∷ bytes "get_selection"
    ∷ bytes "component_scan"
    ∷ bytes "component"
    ∷ []

-- The types of message that the router knows.
abbrev pub types : List Text
types =
    bytes "init"
    ∷ bytes "render_form"
    ∷ bytes "update_control"
    ∷ bytes "close_form"
    ∷ bytes "close_msgbox"
    ∷ bytes "close_popup"
    ∷ bytes "status"
    ∷ bytes "status_close"
    ∷ bytes "focus"
    ∷ bytes "select_text"
    ∷ bytes "select_range"
    ∷ bytes "get_selection"
    ∷ bytes "quit"
    ∷ bytes "reload"
    ∷ bytes "error"
    ∷ bytes "bell"
    ∷ bytes "clipboard_set"
    ∷ bytes "clipboard_get"
    ∷ bytes "pick_file"
    ∷ bytes "pick_file_save"
    ∷ bytes "tabulator_update"
    ∷ bytes "tabulator_remote_data"
    ∷ bytes "tabulator_refresh"
    ∷ bytes "tabulator_destroy"
    ∷ bytes "tabulator_get_data"
    ∷ bytes "tabulator_get_selection"
    ∷ bytes "looper_db_batch"
    ∷ bytes "looper_refresh"
    ∷ bytes "chart_update"
    ∷ bytes "chart_options"
    ∷ bytes "chart_resize"
    ∷ bytes "chart_destroy"
    ∷ bytes "chart_get_image"
    ∷ bytes "tab_set_tab"
    ∷ bytes "tab_update"
    ∷ bytes "msgbox"
    ∷ bytes "popup"
    ∷ []

-- A top flag that is set, which makes the page clear its stage.
unfoldable pub has_top : {F : Type 0} → List (Text × Value F) → Bool
has_top [] = false
has_top ((key, Value.flag b) ∷ rest) =
    let more = has_top rest in if text_beq key (bytes "top") then b else more
has_top (f ∷ rest) = has_top rest

-- What follows the command of a message: a scan of the scope that was rendered.
abbrev pub scan_of : {F : Type 0} → Text → OutboxMsg F → List (WasmCmd F)
scan_of name msg =
    if text_beq name (bytes "render_form")
    then scan (scope_of msg.modal) ∷ []
    else if text_beq name (bytes "update_control")
    then scan (bytes "#stage") ∷ []
    else []

-- One command that the page carries out, with no top flag, and the scan.
abbrev pub IsRoute : {F : Type 0} → Text → OutboxMsg F → List (WasmCmd F) → Type 0
IsRoute {F} name msg cs =
    (c : WasmCmd F) × (elem c.cmd hands ≡ true)
    × (has_top c.fields ≡ false)
    × (cs ≡ c ∷ scan_of name msg)

abbrev AreRoutes : {F : Type 0} → List (Text × (OutboxMsg F → List (WasmCmd F))) → Type 0
AreRoutes [] = Unit {0}
AreRoutes {F} ((name, f) ∷ rest) = ((msg : OutboxMsg F) → IsRoute name msg (f msg)) × AreRoutes rest

module _ {F : Type 0} where
  component_cmd-top :
      (kind op content id : Text) (msg : OutboxMsg F)
      → has_top (component_cmd kind op content id msg).fields ≡ false
  unfolding has_top component_cmd
  component_cmd-top kind op [] [] msg = refl
  component_cmd-top kind op [] (c ∷ id) msg = refl
  component_cmd-top kind op (c ∷ content) [] msg = refl
  component_cmd-top kind op (c ∷ content) (d ∷ id) msg = refl

  render_form-IsRoute : (msg : OutboxMsg F) → IsRoute (bytes "render_form") msg (render_form msg)
  unfolding render_form modal_open has_top elem
  render_form-IsRoute msg = elim (Bool-cases msg.modal) [
    | inl e ↦ rw e (modal_open msg, refl, refl, refl)
    | inr e ↦
        rw e (command (bytes "stage") ((bytes "html", Value.str msg.html) ∷ []), refl, refl, refl)
  ]

  update_control-IsRoute :
      (msg : OutboxMsg F) → IsRoute (bytes "update_control") msg (update_control msg)
  unfolding update_control has_top elem
  update_control-IsRoute msg = (
    command (bytes "update_control")
        ((bytes "selector", Value.str msg.selector) ∷ (bytes "html", Value.str msg.html) ∷ []),
    refl,
    refl,
    refl,
  )

  close_form-IsRoute : (msg : OutboxMsg F) → IsRoute (bytes "close_form") msg (one (close_form msg))
  unfolding close_form has_top elem
  close_form-IsRoute msg = elim (Bool-cases msg.modal) [
    | inl e ↦
        rw e (
          command (bytes "modal_close") ((bytes "name", Value.str msg.form) ∷ []),
          refl,
          refl,
          refl,
        )
    | inr e ↦ rw e (
      command (bytes "form_close") (
          (bytes "name", Value.str msg.form)
          ∷ (bytes "top", Value.flag false)
          ∷ (bytes "destroy", Value.flag true)
          ∷ []),
      refl,
      refl,
      refl,
    )
  ]

routes-AreRoutes : (F : Type 0) → AreRoutes (routes {F = F})
unfolding routes has_top elem component_cmd
routes-AreRoutes F = (
  λ msg. (command (bytes "init") ((bytes "form", Value.str msg.form) ∷ []), refl, refl, refl),
  (
    render_form-IsRoute,
    (
      update_control-IsRoute,
      (
        close_form-IsRoute,
        (
          λ msg. (
            command (bytes "msgbox_close") ((bytes "id", Value.str msg.id) ∷ []),
            refl,
            refl,
            refl,
          ),
          (
            λ msg. (
              command (bytes "popup_close") ((bytes "id", Value.str msg.id) ∷ []),
              refl,
              refl,
              refl,
            ),
            (
              λ msg. (
                command (bytes "status") ((bytes "text", Value.str msg.text) ∷ []),
                refl,
                refl,
                refl,
              ),
              (
                λ msg. (command (bytes "status_close") ([]), refl, refl, refl),
                (
                  λ msg. (
                    command (bytes "focus") (
                        (bytes "form", Value.str msg.form)
                        ∷ (bytes "ctrl", Value.str msg.ctrl)
                        ∷ []),
                    refl,
                    refl,
                    refl,
                  ),
                  (
                    λ msg. (
                      command (bytes "select_text") (
                          (bytes "form", Value.str msg.form)
                          ∷ (bytes "ctrl", Value.str msg.ctrl)
                          ∷ []),
                      refl,
                      refl,
                      refl,
                    ),
                    (
                      λ msg. (
                        command (bytes "select_range") (
                            (bytes "form", Value.str msg.form)
                            ∷ (bytes "ctrl", Value.str msg.ctrl)
                            ∷ (bytes "data", Value.str msg.content)
                            ∷ []),
                        refl,
                        refl,
                        refl,
                      ),
                      (
                        λ msg. (
                          command (bytes "get_selection") (
                              (bytes "id", Value.str msg.id)
                              ∷ (bytes "form", Value.str msg.form)
                              ∷ (bytes "ctrl", Value.str msg.ctrl)
                              ∷ []),
                          refl,
                          refl,
                          refl,
                        ),
                        (
                          λ msg. (command (bytes "quit") ([]), refl, refl, refl),
                          (
                            λ msg. (command (bytes "reload") ([]), refl, refl, refl),
                            (
                              λ msg. (
                                command (bytes "error") (
                                    (bytes "msg", Value.str msg.msg)
                                    ∷ (bytes "stack", Value.str msg.stack)
                                    ∷ []),
                                refl,
                                refl,
                                refl,
                              ),
                              (
                                λ msg. (command (bytes "bell") ([]), refl, refl, refl),
                                (
                                  λ msg. (
                                    command (bytes "clipboard_set")
                                        ((bytes "text", Value.str msg.text) ∷ []),
                                    refl,
                                    refl,
                                    refl,
                                  ),
                                  (
                                    λ msg. (
                                      command (bytes "clipboard_get")
                                          ((bytes "id", Value.str msg.id) ∷ []),
                                      refl,
                                      refl,
                                      refl,
                                    ),
                                    (
                                      λ msg. (
                                        command (bytes "pick_file") (
                                            (bytes "id", Value.str msg.id)
                                            ∷ (bytes "accept", Value.str msg.accept)
                                            ∷ (bytes "multiple", Value.flag msg.multiple)
                                            ∷ []),
                                        refl,
                                        refl,
                                        refl,
                                      ),
                                      (
                                        λ msg. (
                                          command (bytes "pick_file_save") (
                                              (bytes "id", Value.str msg.id)
                                              ∷ (bytes "data", Value.str msg.content)
                                              ∷ []),
                                          refl,
                                          refl,
                                          refl,
                                        ),
                                        (
                                          λ msg. (
                                            component_cmd (bytes "tabulator") (bytes "update")
                                                msg.content [] msg,
                                            refl,
                                            component_cmd-top (bytes "tabulator") (bytes "update")
                                                msg.content [] msg,
                                            refl,
                                          ),
                                          (
                                            λ msg. (
                                              component_cmd (bytes "tabulator")
                                                  (bytes "remote_data") msg.content [] msg,
                                              refl,
                                              component_cmd-top (bytes "tabulator")
                                                  (bytes "remote_data") msg.content [] msg,
                                              refl,
                                            ),
                                            (
                                              λ msg. (
                                                component_cmd (bytes "tabulator") (bytes "refresh")
                                                    [] [] msg,
                                                refl,
                                                component_cmd-top (bytes "tabulator")
                                                    (bytes "refresh") [] [] msg,
                                                refl,
                                              ),
                                              (
                                                λ msg. (
                                                  component_cmd (bytes "tabulator")
                                                      (bytes "destroy") [] [] msg,
                                                  refl,
                                                  component_cmd-top (bytes "tabulator")
                                                      (bytes "destroy") [] [] msg,
                                                  refl,
                                                ),
                                                (
                                                  λ msg. (
                                                    component_cmd (bytes "tabulator")
                                                        (bytes "get_data") [] msg.id msg,
                                                    refl,
                                                    component_cmd-top (bytes "tabulator")
                                                        (bytes "get_data") [] msg.id msg,
                                                    refl,
                                                  ),
                                                  (
                                                    λ msg. (
                                                      component_cmd (bytes "tabulator")
                                                          (bytes "get_selection") [] msg.id msg,
                                                      refl,
                                                      component_cmd-top (bytes "tabulator")
                                                          (bytes "get_selection") [] msg.id msg,
                                                      refl,
                                                    ),
                                                    (
                                                      λ msg. (
                                                        component_cmd (bytes "looper")
                                                            (bytes "batch") msg.content [] msg,
                                                        refl,
                                                        component_cmd-top (bytes "looper")
                                                            (bytes "batch") msg.content [] msg,
                                                        refl,
                                                      ),
                                                      (
                                                        λ msg. (
                                                          component_cmd (bytes "looper")
                                                            (bytes "refresh") [] [] msg,
                                                          refl,
                                                          component_cmd-top (bytes "looper")
                                                            (bytes "refresh") [] [] msg,
                                                          refl,
                                                        ),
                                                        (
                                                          λ msg. (
                                                            component_cmd (bytes "chart")
                                                            (bytes "update") msg.content [] msg,
                                                            refl,
                                                            component_cmd-top (bytes "chart")
                                                            (bytes "update") msg.content [] msg,
                                                            refl,
                                                          ),
                                                          (
                                                            λ msg. (
                                                            component_cmd (bytes "chart")
                                                            (bytes "options") msg.content [] msg,
                                                            refl,
                                                            component_cmd-top (bytes "chart")
                                                            (bytes "options") msg.content [] msg,
                                                            refl,
                                                            ),
                                                            (
                                                            λ msg. (
                                                            component_cmd (bytes "chart")
                                                            (bytes "resize") msg.content [] msg,
                                                            refl,
                                                            component_cmd-top (bytes "chart")
                                                            (bytes "resize") msg.content [] msg,
                                                            refl,
                                                            ),
                                                            (
                                                            λ msg. (
                                                            component_cmd (bytes "chart")
                                                            (bytes "destroy") [] [] msg,
                                                            refl,
                                                            component_cmd-top (bytes "chart")
                                                            (bytes "destroy") [] [] msg,
                                                            refl,
                                                            ),
                                                            (
                                                            λ msg. (
                                                            component_cmd (bytes "chart")
                                                            (bytes "get_image") [] msg.id msg,
                                                            refl,
                                                            component_cmd-top (bytes "chart")
                                                            (bytes "get_image") [] msg.id msg,
                                                            refl,
                                                            ),
                                                            (
                                                            λ msg. (
                                                            component_cmd (bytes "tab")
                                                            (bytes "set_tab") msg.content [] msg,
                                                            refl,
                                                            component_cmd-top (bytes "tab")
                                                            (bytes "set_tab") msg.content [] msg,
                                                            refl,
                                                            ),
                                                            (
                                                            λ msg. (
                                                            component_cmd (bytes "tab")
                                                            (bytes "update") msg.content [] msg,
                                                            refl,
                                                            component_cmd-top (bytes "tab")
                                                            (bytes "update") msg.content [] msg,
                                                            refl,
                                                            ),
                                                            (
                                                            λ msg. (
                                                            command (bytes "msgbox") (
                                                            (bytes "id", Value.str msg.id)
                                                            ∷ (bytes "kind", Value.str msg.kind)
                                                            ∷ (bytes "html", Value.str msg.html)
                                                            ∷ []),
                                                            refl,
                                                            refl,
                                                            refl,
                                                            ),
                                                            (
                                                            λ msg. (
                                                            command (bytes "popup") (
                                                            (bytes "id", Value.str msg.id)
                                                            ∷ (bytes "html", Value.str msg.html)
                                                            ∷ []),
                                                            refl,
                                                            refl,
                                                            refl,
                                                            ),
                                                            tt,
                                                            ),
                                                            ),
                                                            ),
                                                            ),
                                                            ),
                                                            ),
                                                            ),
                                                          ),
                                                        ),
                                                      ),
                                                    ),
                                                  ),
                                                ),
                                              ),
                                            ),
                                          ),
                                        ),
                                      ),
                                    ),
                                  ),
                                ),
                              ),
                            ),
                          ),
                        ),
                      ),
                    ),
                  ),
                ),
              ),
            ),
          ),
        ),
      ),
    ),
  ),
)

abbrev names : {F : Type 0} → List (Text × (OutboxMsg F → List (WasmCmd F))) → List Text
names [] = []
names ((name, f) ∷ rest) = name ∷ names rest

names-routes : (F : Type 0) → names (routes {F = F}) ≡ types
unfolding routes
names-routes F = refl

module _ {F : Type 0} where
  abbrev pub IsDroppedOrRoute : List Text → Text → OutboxMsg F → List (WasmCmd F) → Type 0
  IsDroppedOrRoute known name msg cs =
      ((elem name known ≡ false) × (cs ≡ [])) ⊎ ((elem name known ≡ true) × IsRoute name msg cs)

  find_route-IsRoute :
      (rs : List (Text × (OutboxMsg F → List (WasmCmd F)))) (name : Text) (msg : OutboxMsg F)
      → AreRoutes rs
      → IsDroppedOrRoute (names rs) name msg (find_route rs name msg)
  unfolding find_route elem
  find_route-IsRoute [] name msg v = inl (refl, refl)
  find_route-IsRoute ((n, f) ∷ rest) name msg v = elim (Bool-cases (text_beq n name)) [
    | inl e ↦
        rw (e, find_route)
          (inr (refl, subst (λ k. IsRoute k msg (f msg)) ((text_beq_iff n name).0 e) (v.0 msg)))
    | inr e ↦ rw (e, find_route) (find_route-IsRoute rest name msg v.1)
  ]

  -- A message of a type that the router knows becomes one command that the switch of the page carries
  -- out, which never has a top flag that is set, followed by a scan of the modals or of the stage exactly
  -- if it renders a form or updates a control. Any other message is dropped.
  pub route_outbox-IsRoute :
      (msg : OutboxMsg F) → IsDroppedOrRoute types msg.typ msg (route_outbox msg)
  unfolding route_outbox
  route_outbox-IsRoute msg =
      subst (λ ns. IsDroppedOrRoute ns msg.typ msg (route_outbox msg)) (names-routes F)
        (find_route-IsRoute routes msg.typ msg (routes-AreRoutes F))
