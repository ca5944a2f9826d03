-- ===== src/Serve/Hub/Run.antt =====
-- Sequences of calls of a hub by the handlers, the workers and the pumps. A send is split where the
-- code gives up the lock: it has a connection that was found before.
use kalua.Prelude.{
  ℕ, zero, suc, Option, none, some, List, [], ◌∷◌, ◌++◌, if◌then◌else◌, ◌==◌, ltb, length,
  get_elem?, ◌&&◌, elem, nat_eq,
}
use kalua.Prelude.Text.{Text}
use kalua.Prelude.Dict.{Dict}
use kalua.Serve.Hub.{Hub, Conn, send_cap, register, unregister, send_to, broadcast, accept, pump}

pub data Call : Type 0 where
  register_call : Text → Call
  unregister_call : Text → Call
  send_call : Option ℕ → Text → Call
  broadcast_call : Text → Call
  accept_call : Call
  pump_call : ℕ → Call

abbrev pub after : Hub → Option (Text × Hub) → Hub
after h none = h
after h (some r) = r.1

unfoldable pub call : Hub → Call → Hub
call h (register_call name) = (register h name).0
call h (unregister_call name) = unregister h name
call h (send_call ref msg) = (send_to h ref msg).0
call h (broadcast_call msg) = broadcast h msg
call h accept_call = after h (accept h)
call h (pump_call ref) = after h (pump h ref)

unfoldable pub calls : Hub → List Call → Hub
unfolding call
calls h [] = h
calls h (c ∷ cs) = calls (call h c) cs

-- What a connection has to send.
unfoldable pub queue : List Conn → ℕ → List Text
queue objects r = elim (get_elem? objects r) [ none ↦ [] | some c ↦ c.send_ch ]

-- The references in the map.
unfoldable pub refs : Dict Text ℕ → List ℕ
refs [] = []
refs ((name, r) ∷ m) = r ∷ refs m

-- The message that a call is to add to a connection's queue: of a send to it or of a broadcast while
-- it is in the map, with room in the queue.
unfoldable pub put : ℕ → Hub → Call → List Text
unfolding queue refs
put r h (register_call name) = []
put r h (unregister_call name) = []
put r h (send_call none msg) = []
put r h (send_call (some s) msg) =
    if (s == r && ltb r (length h.objects)) && ltb (length (queue h.objects r)) send_cap
    then msg ∷ []
    else []
put r h (broadcast_call msg) =
    if elem r (refs h.conns) && ltb (length (queue h.objects r)) send_cap then msg ∷ [] else []
put r h accept_call = []
put r h (pump_call s) = []

abbrev pub taken_from : Option (Text × Hub) → List Text
taken_from none = []
taken_from (some m) = m.0 ∷ []

-- The message that a call takes out of it.
unfoldable pub took : ℕ → Hub → Call → List Text
took r h (register_call name) = []
took r h (unregister_call name) = []
took r h (send_call s msg) = []
took r h (broadcast_call msg) = []
took r h accept_call = []
took r h (pump_call s) = if s == r then taken_from (pump h s) else []

unfoldable pub all_put : ℕ → Hub → List Call → List Text
unfolding call put
all_put r h [] = []
all_put r h (c ∷ cs) = put r h c ++ all_put r (call h c) cs

unfoldable pub all_took : ℕ → Hub → List Call → List Text
unfolding call took
all_took r h [] = []
all_took r h (c ∷ cs) = took r h c ++ all_took r (call h c) cs

-- The pump of a connection takes n times.
unfoldable pub pumps : ℕ → ℕ → List Call
pumps r zero = []
pumps r (suc n) = pump_call r ∷ pumps r n
