-- ===== src/Serve/Hub/Refs.antt =====
-- The references in a hub's map: each is of a connection that was made, and no two are the same.
use kalua.Prelude.{
  ℕ, ◌+◌, ◌∙◌, ◌⊎◌, length-set, length-append, ◌<◌, ◌≡◌, refl, none, some, List, [], ◌∷◌, ◌++◌,
  false, ◌==◌, length, get_elem?, set, elem, nat_eq, arith, Option-cases, Bool-cases, inl, inr,
}
use kalua.Prelude.Text.{Text, text_eq, text_beq}
use kalua.Prelude.Dict.{Dict, insert, remove}
use kalua.Serve.Hub.{
  Hub, Conn, offer, send_cap, register, unregister, send_to, enqueue, broadcast, broadcast_to,
  accept, pump,
}
use kalua.Serve.Hub.Run.{
  Call, register_call, unregister_call, send_call, broadcast_call, accept_call, pump_call, call,
  refs,
}

unfoldable pub Distinct : List ℕ → Type 0
Distinct [] = Unit
Distinct (r ∷ rs) = (elem r rs ≡ false) × Distinct rs

abbrev pub Below : ℕ → List ℕ → Type 0
Below n [] = Unit
Below n (r ∷ rs) = (r < n) × Below n rs

unfoldable pub IsValid : Hub → Type 0
IsValid h = Below (length h.objects) (refs h.conns) × Distinct (refs h.conns)

elem-Below : (n r : ℕ) (rs : List ℕ) → Below n rs → n < r + 1 → elem r rs ≡ false
unfolding elem
elem-Below n r [] b h = refl
elem-Below n r (s ∷ rs) b h = ground (arith, elem-Below n r rs b.1 h, b.0)

Below-suc : (n : ℕ) (rs : List ℕ) → Below n rs → Below (n + 1) rs
Below-suc n [] b = b
Below-suc n (r ∷ rs) b = (omega (arith, b.0), Below-suc n rs b.1)

Below-insert :
    (n r : ℕ) (k : Text) (m : Dict Text ℕ)
    → r < n
    → Below n (refs m)
    → Below n (refs (insert k r m))
unfolding refs insert
Below-insert n r k [] h b = (h, b)
Below-insert n r k ((j, s) ∷ m) h b = elim (Bool-cases (text_beq j k)) [
  | inl p ↦ rw p (h, b.1)
  | inr p ↦ rw p (b.0, Below-insert n r k m h b.1)
]

Below-remove : (n : ℕ) (k : Text) (m : Dict Text ℕ) → Below n (refs m) → Below n (refs (remove k m))
unfolding refs remove
Below-remove n k [] b = b
Below-remove n k ((j, s) ∷ m) b = elim (Bool-cases (text_beq j k)) [
  | inl p ↦ rw p (Below-remove n k m b.1)
  | inr p ↦ rw p (b.0, Below-remove n k m b.1)
]

elem-insert :
    (r q : ℕ) (k : Text) (m : Dict Text ℕ)
    → r == q ≡ false
    → elem r (refs m) ≡ false
    → elem r (refs (insert k q m)) ≡ false
unfolding refs insert elem
elem-insert r q k [] n e = ground arith
elem-insert r q k ((j, s) ∷ m) n e = ground (arith, elem-insert r q k m n)

elem-remove :
    (r : ℕ) (k : Text) (m : Dict Text ℕ)
    → elem r (refs m) ≡ false
    → elem r (refs (remove k m)) ≡ false
unfolding refs remove elem
elem-remove r k [] e = e
elem-remove r k ((j, s) ∷ m) e = ground (arith, elem-remove r k m)

Distinct-insert :
    (q : ℕ) (k : Text) (m : Dict Text ℕ)
    → elem q (refs m) ≡ false
    → Distinct (refs m)
    → Distinct (refs (insert k q m))
unfolding refs insert Distinct elem
Distinct-insert q k [] e d = (refl, d)
Distinct-insert q k ((j, s) ∷ m) e d = elim (Bool-cases (text_beq j k)) [
  | inl p ↦ rw p (ground arith, d.1)
  | inr p ↦ rw p (elem-insert s q k m (ground arith) d.0, Distinct-insert q k m (ground arith) d.1)
]

Distinct-remove : (k : Text) (m : Dict Text ℕ) → Distinct (refs m) → Distinct (refs (remove k m))
unfolding refs remove Distinct elem
Distinct-remove k [] d = d
Distinct-remove k ((j, s) ∷ m) d = elim (Bool-cases (text_beq j k)) [
  | inl p ↦ rw p (Distinct-remove k m d.1)
  | inr p ↦ rw p (elem-remove s k m d.0, Distinct-remove k m d.1)
]

-- A connection with a message added, if there is room.
abbrev pub offered : Conn → Text → Conn
offered c msg = record { id = c.id; send_ch = (offer send_cap c.send_ch msg).0 }

pub enqueue_cases :
    (objects : List Conn) (r : ℕ) (msg : Text)
    → ((get_elem? objects r ≡ none) × (enqueue objects r msg ≡ (objects, false)))
      ⊎ ((c : Conn) × (get_elem? objects r ≡ some c)
          × (enqueue objects r msg
              ≡ (set objects r (offered c msg), (offer send_cap c.send_ch msg).1)))
unfolding enqueue
enqueue_cases objects r msg = elim (Option-cases (get_elem? objects r)) [
  | inl e ↦ inl (e, rw (e, enqueue) refl)
  | inr (c, e) ↦ inr (c, e, rw (e, enqueue) refl)
]

pub accept_cases :
    (h : Hub)
    → (accept h ≡ none)
      ⊎ ((id : Text) × (rest : List ℕ) × (accept h ≡ some (id, record h { accept_ch = rest })))
unfolding accept
accept_cases h = go h.accept_ch refl
  where
    go :
        (q : List ℕ)
        → h.accept_ch ≡ q
        → (accept h ≡ none)
          ⊎ ((id : Text) × (rest : List ℕ) × (accept h ≡ some (id, record h { accept_ch = rest })))
    go [] e = inl (rw (e, accept) refl)
    go (r ∷ rest) e = elim (Option-cases (get_elem? h.objects r)) [
      | inl f ↦ inl (rw (e, f, accept) refl)
      | inr (c, f) ↦ inr (c.id, rest, rw (e, f, accept) refl)
    ]

abbrev pub Pumped : Hub → ℕ → Type 0
Pumped h r =
    (c : Conn) × (msg : Text) × (rest : List Text) × (get_elem? h.objects r ≡ some c)
    × (c.send_ch ≡ msg ∷ rest)
    × (pump h r
        ≡ some (msg, record h { objects = set h.objects r (record { id = c.id; send_ch = rest }) }))

pump-some :
    (h : Hub) (r : ℕ) (c : Conn) (q : List Text)
    → c.send_ch ≡ q
    → get_elem? h.objects r ≡ some c
    → (pump h r ≡ none) ⊎ Pumped h r
unfolding pump
pump-some h r c [] e f = inl (rw (f, e, pump) refl)
pump-some h r c (msg ∷ rest) e f = inr (c, msg, rest, f, e, rw (f, e, pump) refl)

pub pump_cases : (h : Hub) (r : ℕ) → (pump h r ≡ none) ⊎ Pumped h r
unfolding pump
pump_cases h r = elim (Option-cases (get_elem? h.objects r)) [
  | inl e ↦ inl (rw (e, pump) refl)
  | inr (c, e) ↦ pump-some h r c c.send_ch refl e
]

pub length-enqueue :
    (objects : List Conn) (r : ℕ) (msg : Text) → length (enqueue objects r msg).0 ≡ length objects
length-enqueue objects r msg = elim (enqueue_cases objects r msg) [
  | inl (e, f) ↦ rw f refl
  | inr (c, e, f) ↦ rw f (length-set objects r (offered c msg))
]

length-broadcast_to :
    (objects : List Conn) (m : Dict Text ℕ) (msg : Text)
    → length (broadcast_to objects m msg) ≡ length objects
unfolding broadcast_to
length-broadcast_to objects [] msg = refl
length-broadcast_to objects ((k, r) ∷ m) msg =
    length-broadcast_to (enqueue objects r msg).0 m msg ∙ length-enqueue objects r msg

register-IsValid : (h : Hub) (name : Text) → IsValid h → IsValid (register h name).0
unfolding register IsValid
register-IsValid h name v =
    let n = length h.objects in
    let e : length (h.objects ++ (record { id = name; send_ch = [] } ∷ [])) ≡ n + 1 =
      length-append h.objects (record { id = name; send_ch = [] } ∷ []) in
    (
      rw e (Below-insert (n + 1) n name h.conns (omega arith) (Below-suc n (refs h.conns) v.0)),
      Distinct-insert n name h.conns (elem-Below n n (refs h.conns) v.0 (omega arith)) v.1,
    )

pub call-IsValid : (h : Hub) (c : Call) → IsValid h → IsValid (call h c)
unfolding call IsValid unregister send_to broadcast accept pump
call-IsValid h (register_call name) v = register-IsValid h name v
call-IsValid h (unregister_call name) v =
    (Below-remove (length h.objects) name h.conns v.0, Distinct-remove name h.conns v.1)
call-IsValid h (send_call none msg) v = v
call-IsValid h (send_call (some r) msg) v = rw (length-enqueue h.objects r msg) v
call-IsValid h (broadcast_call msg) v = rw (length-broadcast_to h.objects h.conns msg) v
call-IsValid h accept_call v = elim (accept_cases h) [ inl e ↦ rw e v | inr (id, rest, e) ↦ rw e v ]
call-IsValid h (pump_call r) v = elim (pump_cases h r) [
  | inl e ↦ rw e v
  | inr (c, msg, rest, f, q, e) ↦
      rw (e, length-set h.objects r (record { id = c.id; send_ch = rest })) v
]
