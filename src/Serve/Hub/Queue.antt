-- ===== src/Serve/Hub/Queue.antt =====
-- The queues of the connections: what a connection is sent comes out in order, and nothing else does.
use kalua.Prelude.{
  ℕ, zero, suc, ◌∙◌, sym, ◌<◌, ◌≤◌, ◌≡◌, refl, none, some, List, [], ◌∷◌, ◌++◌, append-nil, Bool,
  true, false, if◌then◌else◌, ◌==◌, ltb, length, get_elem?, set, ◌&&◌, elem, nat_eq, arith,
  Bool-cases, inl, inr,
}
use kalua.Prelude.Text.{Text, text_eq}
use kalua.Prelude.Dict.{Dict}
use kalua.Serve.Hub.{
  Hub, Conn, offer, send_cap, register, unregister, send_to, enqueue, broadcast, broadcast_to,
}
use kalua.Serve.Hub.Run.{
  Call, register_call, unregister_call, send_call, broadcast_call, accept_call, pump_call, call,
  refs, queue, put, took,
}
use kalua.Serve.Hub.Refs.{
  IsValid, Distinct, Below, enqueue_cases, accept_cases, pump_cases, length-enqueue, offered,
}

pub queue-set :
    (objects : List Conn) (s r : ℕ) (c : Conn)
    → s < length objects
    → queue (set objects s c) r ≡ (if s == r then c.send_ch else queue objects r)
unfolding queue
queue-set [] s r c h = absurd (omega (arith, h))
queue-set (o ∷ objects) zero zero c h = refl
queue-set (o ∷ objects) zero (suc r) c h = ground arith
queue-set (o ∷ objects) (suc s) zero c h = ground arith
queue-set (o ∷ objects) (suc s) (suc r) c h =
    queue-set objects s r c (omega (arith, h)) ∙ ground arith

pub get_elem?-bound :
    (objects : List Conn) (r : ℕ) (c : Conn) → get_elem? objects r ≡ some c → r < length objects
get_elem?-bound [] r c e = cc
get_elem?-bound (o ∷ objects) zero c e = ground arith
get_elem?-bound (o ∷ objects) (suc r) c e = omega (arith, get_elem?-bound objects r c e)

get_elem?-none : (objects : List Conn) (r : ℕ) → get_elem? objects r ≡ none → length objects ≤ r
get_elem?-none [] r e = ground arith
get_elem?-none (o ∷ objects) zero e = cc
get_elem?-none (o ∷ objects) (suc r) e = omega (arith, get_elem?-none objects r e)

queue-register :
    (objects : List Conn) (r : ℕ) (name : Text)
    → queue (objects ++ (record { id = name; send_ch = [] } ∷ [])) r ≡ queue objects r
unfolding queue
queue-register [] zero name = refl
queue-register [] (suc r) name = refl
queue-register (o ∷ objects) zero name = refl
queue-register (o ∷ objects) (suc r) name = queue-register objects r name

-- The message, if the connection has room for it.
abbrev pub fits : List Conn → ℕ → Bool → Text → List Text
fits objects r wanted msg =
    if wanted && ltb (length (queue objects r)) send_cap then msg ∷ [] else []

pub queue-get_elem? :
    (objects : List Conn) (r : ℕ) (c : Conn)
    → get_elem? objects r ≡ some c
    → queue objects r ≡ c.send_ch
unfolding queue
queue-get_elem? objects r c e = rw (e, queue) refl

offer-append :
    (q : List Text) (msg : Text)
    → (offer send_cap q msg).0 ≡ q ++ (if ltb (length q) send_cap then msg ∷ [] else [])
unfolding offer
offer-append q msg = elim (Bool-cases (ltb (length q) send_cap)) [
  | inl p ↦ rw p refl
  | inr p ↦ rw p (sym (append-nil q))
]

pub queue-enqueue :
    (objects : List Conn) (s r : ℕ) (msg : Text)
    → queue (enqueue objects s msg).0 r
      ≡ queue objects r ++ fits objects r (s == r && ltb r (length objects)) msg
queue-enqueue objects s r msg = elim (enqueue_cases objects s msg) [
  | inl (e, f) ↦
      let no : (s == r && ltb r (length objects)) ≡ false =
        ground (arith, get_elem?-none objects s e) in
      rw (f, no) (sym (append-nil (queue objects r)))
  | inr (c, e, f) ↦
      let b = get_elem?-bound objects s c e in
      let q = queue-get_elem? objects s c e in
      let g = queue-set objects s r (offered c msg) b in
      elim (Bool-cases (s == r)) [
        | inl p ↦
            let sr : s ≡ r = ground arith in
            let yes : (s == r && ltb r (length objects)) ≡ true = ground arith in
            rw (f, g, yes, p, offer-append c.send_ch msg, ← sr, q) refl
        | inr p ↦ rw (f, g, p) (sym (append-nil (queue objects r)))
      ]
]

queue-broadcast_to :
    (objects : List Conn) (m : Dict Text ℕ) (r : ℕ) (msg : Text)
    → Below (length objects) (refs m)
    → Distinct (refs m)
    → queue (broadcast_to objects m msg) r ≡ queue objects r ++ fits objects r (elem r (refs m)) msg
unfolding broadcast_to refs elem Distinct
queue-broadcast_to objects [] r msg b d = sym (append-nil (queue objects r))
queue-broadcast_to objects ((k, s) ∷ m) r msg b d =
    let next = (enqueue objects s msg).0 in
    let ih = queue-broadcast_to next m r msg (rw (length-enqueue objects s msg) b.1) d.1 in
    let first = queue-enqueue objects s r msg in
    elim (Bool-cases (s == r)) [
      | inl p ↦
          let sr : s ≡ r = ground arith in
          let none_left : elem r (refs m) ≡ false = rw (← sr) d.0 in
          let inside : ltb r (length objects) ≡ true = ground (arith, b.0) in
          ih
          ∙ rw (first, none_left, p, inside)
              (append-nil (queue objects r ++ fits objects r true msg))
      | inr p ↦ ih ∙ rw (first, p, append-nil (queue objects r)) refl
    ]

-- What a call takes out and what is left is what there was and what the call puts in.
pub call-queue :
    (r : ℕ) (h : Hub) (c : Call)
    → IsValid h
    → took r h c ++ queue (call h c).objects r ≡ queue h.objects r ++ put r h c
unfolding call took put IsValid register unregister send_to broadcast
call-queue r h (register_call name) v =
    queue-register h.objects r name ∙ sym (append-nil (queue h.objects r))
call-queue r h (unregister_call name) v = sym (append-nil (queue h.objects r))
call-queue r h (send_call none msg) v = sym (append-nil (queue h.objects r))
call-queue r h (send_call (some s) msg) v = queue-enqueue h.objects s r msg
call-queue r h (broadcast_call msg) v = queue-broadcast_to h.objects h.conns r msg v.0 v.1
call-queue r h accept_call v = elim (accept_cases h) [
  | inl e ↦ rw e (sym (append-nil (queue h.objects r)))
  | inr (id, rest, e) ↦ rw e (sym (append-nil (queue h.objects r)))
]
call-queue r h (pump_call s) v = elim (pump_cases h s) [
  | inl e ↦ elim (Bool-cases (s == r)) [
    | inl p ↦ rw (e, p) (sym (append-nil (queue h.objects r)))
    | inr p ↦ rw (e, p) (sym (append-nil (queue h.objects r)))
  ]
  | inr (c, msg, rest, f, q, e) ↦
      let set_to =
        queue-set h.objects s r (record { id = c.id; send_ch = rest })
          (get_elem?-bound h.objects s c f) in
      elim (Bool-cases (s == r)) [
        | inl p ↦
            let sr : s ≡ r = ground arith in
            rw
              (
                e,
                set_to,
                p,
                append-nil (queue h.objects r),
                ← sr,
                queue-get_elem? h.objects s c f,
                q,
              )
              refl
        | inr p ↦ rw (e, set_to, p, append-nil (queue h.objects r)) refl
      ]
]
