-- ===== src/Serve/Hub.antt =====
-- internal/server/ws.go and tcp.go: the connections that the handlers and the workers share. A hub holds
-- references, so that the connections stand in a list and the map has their positions: a sender that
-- has read the map goes on with the connection it found, whatever happens to the map. What is behind
-- the socket, the `close` function and the pump's writes, is not modelled.
pub mod Run
pub mod Refs
pub mod Queue
pub mod Order
use kalua.Prelude.{
  ℕ, ◌+◌, ◌-◌, ◌≤◌, ◌<◌, ◌≡◌, refl, Bool, true, false, Option, none, some, List, [], ◌∷◌, ◌++◌, ltb,
  length, get_elem?, set, if◌then◌else◌,
}
use kalua.Prelude.Text.{Text, text_eq}
use kalua.Prelude.Dict.{Dict, lookup, insert, remove}

-- WSConn and TCPConn: `make(chan []byte, 256)` is the queue.
pub record Conn : Type 0 where
  pub id : Text
  pub send_ch : List Text

-- WSHub and TCPHub; a WSHub has no accept_ch, and a TCPHub's has room for 16.
pub record Hub : Type 0 where
  pub objects : List Conn
  pub conns : Dict Text ℕ
  pub accept_ch : List ℕ
  pub accept_cap : ℕ

abbrev pub send_cap : ℕ
send_cap = 256

abbrev pub new_ws_hub : Hub
new_ws_hub = record { objects = []; conns = []; accept_ch = []; accept_cap = 0 }

abbrev pub new_tcp_hub : Hub
new_tcp_hub = record { objects = []; conns = []; accept_ch = []; accept_cap = 16 }

-- The `select` with a default: it puts the item in if there is room, and says whether it did.
unfoldable pub offer {ℓ} : {A : Type ℓ} → ℕ → List A → A → List A × Bool
offer cap q x = if ltb (length q) cap then (q ++ (x ∷ []), true) else (q, false)

-- Register; the position stands for the reference that it returns.
unfoldable pub register : Hub → Text → Hub × ℕ
unfolding offer
register h name =
    let ref = length h.objects in
    let ch = offer h.accept_cap h.accept_ch ref in
    let c : Conn = record { id = name; send_ch = [] } in
    (
      record {
        objects = h.objects ++ (c ∷ []);
        conns = insert name ref h.conns;
        accept_ch = ch.0;
        accept_cap = h.accept_cap;
      },
      ref,
    )

unfoldable pub unregister : Hub → Text → Hub
unregister h name = record h { conns = remove name h.conns }

unfoldable pub get : Hub → Text → Option ℕ
get h name = lookup name h.conns

-- `ws.sendCh <- msg` under a select with a default.
unfoldable pub enqueue : List Conn → ℕ → Text → List Conn × Bool
unfolding offer
enqueue objects ref msg = elim (get_elem? objects ref) [
  | none ↦ (objects, false)
  | some c ↦
      let r = offer send_cap c.send_ch msg in
      (set objects ref (record { id = c.id; send_ch = r.0 }), r.1)
]

-- Send after it has read the map.
unfoldable pub send_to : Hub → Option ℕ → Text → Hub × Bool
unfolding enqueue
send_to h none msg = (h, false)
send_to h (some ref) msg = let r = enqueue h.objects ref msg in (record h { objects = r.0 }, r.1)

unfoldable pub send : Hub → Text → Text → Hub × Bool
unfolding get send_to
send h name msg = send_to h (get h name) msg

unfoldable pub broadcast_to : List Conn → Dict Text ℕ → Text → List Conn
unfolding enqueue
broadcast_to objects [] msg = objects
broadcast_to objects ((name, ref) ∷ rest) msg = broadcast_to (enqueue objects ref msg).0 rest msg

unfoldable pub broadcast : Hub → Text → Hub
unfolding broadcast_to
broadcast h msg = record h { objects = broadcast_to h.objects h.conns msg }

-- Accept when the context is not done: it waits while the channel is empty.
unfoldable pub accept : Hub → Option (Text × Hub)
accept h = elim h.accept_ch [
  | [] ↦ none
  | ref ∷ rest ↦ elim (get_elem? h.objects ref) [
    | none ↦ none
    | some c ↦ some (c.id, record h { accept_ch = rest })
  ]
]

-- The outbound pump takes the next message of a connection.
unfoldable pub pump : Hub → ℕ → Option (Text × Hub)
pump h ref = elim (get_elem? h.objects ref) [
  | none ↦ none
  | some c ↦ elim c.send_ch [
    | [] ↦ none
    | msg ∷ rest ↦
        some (msg, record h { objects = set h.objects ref (record { id = c.id; send_ch = rest }) })
  ]
]
