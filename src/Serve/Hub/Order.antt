-- ===== src/Serve/Hub/Order.antt =====
-- The queues over whole sequences of calls: order, bound and delivery.
use kalua.Prelude.{
  ℕ, ◌∙◌, sym, ap, ◌≡◌, refl, none, some, List, [], ◌∷◌, ◌++◌, append_assoc, append-nil, length,
  get_elem?, set, nat_eq, Option-cases, inl, inr, ==_refl,
}
use kalua.Prelude.Text.{Text, text_eq}
use kalua.Serve.Hub.{Hub, Conn, pump}
use kalua.Serve.Hub.Run.{Call, pump_call, call, calls, queue, put, took, all_put, all_took, pumps}
use kalua.Serve.Hub.Refs.{IsValid, call-IsValid}
use kalua.Serve.Hub.Queue.{queue-set, get_elem?-bound, queue-get_elem?, call-queue}

-- In every sequence of calls of a hub whose map is valid, what a connection's pump has taken, followed by what is
-- in its queue at the end, is what was in its queue at the start, followed by the messages that were sent or
-- broadcast to it while there was room, in the order of the calls.
pub fifo :
    (r : ℕ) (h : Hub) (cs : List Call)
    → IsValid h
    → all_took r h cs ++ queue (calls h cs).objects r ≡ queue h.objects r ++ all_put r h cs
unfolding calls all_took all_put
fifo r h [] v = sym (append-nil (queue h.objects r))
fifo r h (c ∷ cs) v =
    append_assoc (took r h c) (all_took r (call h c) cs) (queue (calls (call h c) cs).objects r)
    ∙ ap (λ q. took r h c ++ q) (fifo r (call h c) cs (call-IsValid h c v))
    ∙ sym (append_assoc (took r h c) (queue (call h c).objects r) (all_put r (call h c) cs))
    ∙ ap (λ q. q ++ all_put r (call h c) cs) (call-queue r h c v)
    ∙ append_assoc (queue h.objects r) (put r h c) (all_put r (call h c) cs)

pub calls-append : (h : Hub) (cs ds : List Call) → calls h (cs ++ ds) ≡ calls (calls h cs) ds
unfolding calls
calls-append h [] ds = refl
calls-append h (c ∷ cs) ds = calls-append (call h c) cs ds

nil-ne-cons : {msg : Text} {q : List Text} → [] ≡ msg ∷ q → ⊥
nil-ne-cons e = cc

queue-none : (objects : List Conn) (r : ℕ) → get_elem? objects r ≡ none → queue objects r ≡ []
unfolding queue
queue-none objects r e = rw (e, queue) refl

pump-queue :
    (h : Hub) (r : ℕ) (c : Conn) (msg : Text) (q : List Text)
    → get_elem? h.objects r ≡ some c
    → c.send_ch ≡ msg ∷ q
    → pump h r
      ≡ some (msg, record h { objects = set h.objects r (record { id = c.id; send_ch = q }) })
unfolding pump
pump-queue h r c msg q f e = rw (f, e, pump) refl

pump_one :
    (r : ℕ) (h : Hub) (msg : Text) (q : List Text)
    → queue h.objects r ≡ msg ∷ q
    → (took r h (pump_call r) ≡ msg ∷ []) × (queue (call h (pump_call r)).objects r ≡ q)
unfolding took call
pump_one r h msg q e = elim (Option-cases (get_elem? h.objects r)) [
  | inl f ↦ absurd (nil-ne-cons (sym (queue-none h.objects r f) ∙ e))
  | inr (c, f) ↦
      let pe = pump-queue h r c msg q f (sym (queue-get_elem? h.objects r c f) ∙ e) in
      let b = get_elem?-bound h.objects r c f in
      (
        rw (pe, ==_refl r) refl,
        rw (pe, queue-set h.objects r r (record { id = c.id; send_ch = q }) b, ==_refl r) refl,
      )
]

-- A pump that takes as often as there are messages takes them all, in their order.
pub drained :
    (r : ℕ) (h : Hub) (q : List Text)
    → queue h.objects r ≡ q
    → all_took r h (pumps r (length q)) ≡ q
unfolding all_took pumps
drained r h [] e = refl
drained r h (msg ∷ q) e =
    let (t, u) = pump_one r h msg q e in rw (t, drained r (call h (pump_call r)) q u) refl
