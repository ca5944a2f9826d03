-- ===== src/Session/Waiting.antt =====
-- The coroutines of a session: those that run, the innermost first, and those that wait in a table for
-- an answer.
use kalua.Prelude.{
  ℕ, ◌+◌, ◌≤◌, ◌≡◌, refl, ap, ◌∙◌, inl, inr, true, false, some, List, [], ◌∷◌, ◌==◌, ltb,
  if◌then◌else◌, length, arith, Bool-cases,
}
use kalua.Prelude.Text.{Text, text_eq, text_beq, text_beq_iff, is_empty}
use kalua.Prelude.Dict.{Dict, lookup, insert, lookup-insert}
use kalua.Session.{Session, store_async, send_outbox, show_msgbox, request, outbox_cap}

abbrev pub one : ℕ → ℕ → ℕ
one v c = if v == c then 1 else 0

-- How often a coroutine stands in a list, and in a table.
abbrev pub occurs : ℕ → List ℕ → ℕ
occurs c [] = 0
occurs c (v ∷ vs) = one v c + occurs c vs

abbrev pub waits : ℕ → Dict Text ℕ → ℕ
waits c [] = 0
waits c ((k, v) ∷ m) = one v c + waits c m

module _ (k j : Text) (w : ℕ) (m : Dict Text ℕ) {v : ℕ} where
  lookup_here : text_beq j k ≡ true → lookup k ((j, w) ∷ m) ≡ some v → w ≡ v
  unfolding lookup
  lookup_here b e = ground (arith, b, e)

  lookup_there : text_beq j k ≡ false → lookup k ((j, w) ∷ m) ≡ some v → lookup k m ≡ some v
  unfolding lookup
  lookup_there b e = ground (arith, b, e)

-- The coroutine that had the identifier is lost.
waits-insert_over :
    (c : ℕ) (k : Text) (v : ℕ) (m : Dict Text ℕ) {old : ℕ}
    → lookup k m ≡ some old
    → waits c (insert k v m) + one old c ≡ waits c m + one v c
unfolding insert lookup
waits-insert_over c k v [] e = cc
waits-insert_over c k v ((j, w) ∷ m) {old} e = elim (Bool-cases (text_beq j k)) [
  | inl b ↦
      let h : w ≡ old = lookup_here k j w m b e in rw b (omega (arith, ap (λ (t : ℕ). one t c) h))
  | inr b ↦ rw b (omega (arith, waits-insert_over c k v m (lookup_there k j w m b e)))
]

-- A session with its running coroutines.
pub record World (M : Type 0) : Type 0 where
  pub session : Session M
  pub running : List ℕ

-- How often a coroutine runs or waits.
abbrev pub present : {M : Type 0} → ℕ → World M → ℕ
present c w =
    occurs c w.running
    + waits c w.session.async_ops
    + waits c w.session.sleep_ops
    + waits c w.session.form_coros

abbrev pub IsApart : {M : Type 0} → World M → Type 0
IsApart w = (c : ℕ) → present c w ≤ 1

module _ {M : Type 0} where
  send_outbox-ops : (s : Session M) (m : M) → (send_outbox s m).async_ops ≡ s.async_ops
  unfolding send_outbox
  send_outbox-ops s m = elim (Bool-cases (ltb (length s.outbox) outbox_cap)) [
    | inl e ↦ rw e refl
    | inr e ↦ rw e refl
  ]

  -- Where a message box is shown with an identifier under which another coroutine waits, and every
  -- coroutine of the session runs or waits at most once, the other coroutine waits for no answer any more.
  pub show_msgbox_lost :
      (s : Session M) (run : List ℕ) (co old : ℕ) (id generated : Text) (msg : Text → M)
      → is_empty id ≡ false
      → lookup id s.async_ops ≡ some old
      → IsApart (record { session = s; running = co ∷ run })
      → waits old (show_msgbox s co id generated msg).async_ops ≡ 0
  unfolding show_msgbox store_async
  show_msgbox_lost s run co old id generated msg n e a =
      let self : one old old ≡ 1 = ground arith in
      let stored : (show_msgbox s co id generated msg).async_ops ≡ insert id co s.async_ops =
        rw n (send_outbox-ops (store_async s id co) (msg id)) in
      ap (waits old) stored ∙ omega (arith, a old, waits-insert_over old id co s.async_ops e, self)

  -- Where the outbox is full, a request to the browser stores its coroutine and sends nothing.
  pub request_dropped :
      (s : Session M) (co : ℕ) (generated : Text) (msg : Text → M)
      → outbox_cap ≤ length s.outbox
      → (lookup generated (request s co generated msg).async_ops ≡ some co)
        × ((request s co generated msg).outbox ≡ s.outbox)
  unfolding request store_async send_outbox
  request_dropped s co generated msg h =
      let full : ltb (length s.outbox) outbox_cap ≡ false = ground arith in
      rw full (
        (lookup-insert generated generated co s.async_ops
            ∙ rw ((text_beq_iff generated generated).1 refl) refl),
        refl,
      )
