-- ===== src/Serve/Tests.antt =====
-- The properties of the shared store and of the hubs on concrete inputs.
use kalua.Prelude.{◌≡◌, refl, some, List, [], ◌∷◌, ◌++◌, ◌+◌, ◌%◌, elem, arith}
use kalua.Prelude.Text.{bytes, text_eq}
use kalua.Prelude.Dict.{insert}
use kalua.Serve.Shared.{SharedState, int64_mod}
use kalua.Serve.Shared.Counter.{value_of}
use kalua.Serve.Shared.Calls
use kalua.Serve.Shared.Calls.{set_call, incr_call, calls, calls-total, total}
use kalua.Serve.Hub.{Hub, register, broadcast, broadcast_to, enqueue, offer, pump, send_to}
use kalua.Serve.Hub.Run.{
  Call, refs, took, call, register_call, unregister_call, send_call, broadcast_call, accept_call,
  pump_call, queue, all_took, all_put, pumps,
}
use kalua.Serve.Hub.Refs.{IsValid, Distinct}
use kalua.Serve.Hub.Run
use kalua.Serve.Hub.Order.{fifo}

abbrev store : SharedState
store = record { entries = (bytes "hits", bytes "41") ∷ (bytes "name", bytes "kalua") ∷ [] }

abbrev two_workers : List Calls.Call
two_workers =
    incr_call (bytes "hits") 1
    ∷ set_call (bytes "name") (bytes "x")
    ∷ incr_call (bytes "hits") 18446744073709551615
    ∷ incr_call (bytes "hits") 5
    ∷ []

calls-total_example :
    value_of (calls store two_workers) (bytes "hits") % int64_mod
    ≡ (value_of store (bytes "hits") + total (bytes "hits") two_workers) % int64_mod
calls-total_example = calls-total (bytes "hits") store two_workers (tt, (refl, (tt, (tt, tt))))

-- A connection with a message waiting, and one that left the map.
abbrev hub : Hub
hub = record {
  objects =
      record { id = bytes "ws1"; send_ch = bytes "hi" ∷ [] }
      ∷ record { id = bytes "ws2"; send_ch = [] }
      ∷ [];
  conns = (bytes "ws1", 0) ∷ [];
  accept_ch = [];
  accept_cap = 0;
}

hub-IsValid : IsValid hub
unfolding IsValid refs Distinct elem
hub-IsValid = ((omega arith, tt), (refl, tt))

abbrev traffic : List Call
traffic =
    broadcast_call (bytes "all")
    ∷ pump_call 0
    ∷ register_call (bytes "ws3")
    ∷ send_call (some 0) (bytes "you")
    ∷ pump_call 0
    ∷ []

-- What the pump took and what is left.
traffic_took : all_took 0 hub traffic ≡ bytes "hi" ∷ bytes "all" ∷ []
unfolding all_took took call broadcast broadcast_to enqueue offer pump register send_to insert
traffic_took = refl

fifo_example :
    all_took 0 hub traffic ++ queue (Run.calls hub traffic).objects 0
    ≡ queue hub.objects 0 ++ all_put 0 hub traffic
fifo_example = fifo 0 hub traffic hub-IsValid
