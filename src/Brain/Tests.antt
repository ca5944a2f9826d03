-- ===== src/Brain/Tests.antt =====
-- A message of the outbox, and the theorem at it.
use kalua.Prelude.{ℕ, ◌≡◌, refl, true, false, [], ◌∷◌}
use kalua.Prelude.Text.{bytes}
use kalua.Brain.{OutboxMsg, Value, command, route_outbox, routes, find_route, update_control, scan}
use kalua.Brain.Hands.{IsDroppedOrRoute, types, route_outbox-IsRoute}

abbrev update : OutboxMsg ℕ
update = record {
  typ = bytes "update_control";
  form = [];
  ctrl = [];
  html = bytes "<p>";
  selector = bytes "#a";
  id = [];
  kind = [];
  text = [];
  msg = [];
  stack = [];
  accept = [];
  multiple = false;
  content = [];
  modal = true;
  gap_x = 0;
  gap_y = 0;
  grid = false;
  grid_mode = [];
  grid_pk = [];
  grid_row = [];
}

-- The stage is scanned, also where the form is a modal one.
update_commands :
    route_outbox update
    ≡ command
        (bytes "update_control")
        ((bytes "selector", Value.str (bytes "#a")) ∷ (bytes "html", Value.str (bytes "<p>")) ∷ [])
      ∷ command (bytes "component_scan") ((bytes "scope", Value.str (bytes "#stage")) ∷ [])
      ∷ []
unfolding route_outbox routes find_route update_control scan
update_commands = refl

route_outbox-IsRoute_example : IsDroppedOrRoute types update.typ update (route_outbox update)
route_outbox-IsRoute_example = route_outbox-IsRoute update
