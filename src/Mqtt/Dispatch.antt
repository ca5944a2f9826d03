-- ===== src/Mqtt/Dispatch.antt =====
-- The dispatch of a message to the handlers of a script, and the checks of k.mqtt_on and
-- k.mqtt_subscribe.
use kalua.Prelude.{
  ℕ, ◌+◌, ◌*◌, ◌%◌, ◌<◌, ◌≡◌, refl, ◌⊎◌, inl, inr, true, false, none, List, [], ◌∷◌, ◌++◌, arith,
  Bool-cases, Option-cases, All,
}
use kalua.Prelude.Text.{Text, bytes}
use kalua.Prelude.Int.{pos}
use kalua.Prelude.Split.{split}
use kalua.Mqtt.{
  Handler, Lua, Outcome, ended, yielded, failed, report, mqtt_topic_match, run_handler,
  dispatch_mqtt, mqtt_on, mqtt_subscribe, to_byte, validate_mqtt_qos, validate_mqtt_pattern,
  call_hub,
}
use kalua.Mqtt.Levels.{Matches, mqtt_topic_match-Matches}

-- The functions that a message is for, in the order in which the handlers were registered.
pub data Receivers (topic : Text) : List Handler → List Text → Type 0 where
  no_handlers : Receivers topic [] []
  receives :
      (h : Handler) (hs : List Handler) (fns : List Text)
      → Matches (split b'/' h.pattern) (split b'/' topic)
      → Receivers topic hs fns
      → Receivers topic (h ∷ hs) (h.fn ∷ fns)
  passes :
      (h : Handler) (hs : List Handler) (fns : List Text)
      → (Matches (split b'/' h.pattern) (split b'/' topic) → ⊥)
      → Receivers topic hs fns
      → Receivers topic (h ∷ hs) fns

abbrev pub AreAccepted : List Handler → Type 0
AreAccepted = All (λ h. validate_mqtt_pattern h.pattern ≡ none)

module _ {S : Type 0} (lua : Lua S) where
  -- What becomes of the state where a function is to get a message: it runs, up to its end or a yield, or to an
  -- error that the hook is given; if there is no such function, the hook is given that.
  pub IsRun : Text → Text → S → Text → S → Type 0
  IsRun topic payload s fn t =
      ((lua.is_function s fn ≡ false)
        × (t ≡ lua.fire_error s (bytes "mqtt handler " ++ (lua.quote fn ++ bytes " not found"))))
      ⊎ ((lua.is_function s fn ≡ true) × (lua.resume s fn topic payload ≡ (t, ended)))
      ⊎ ((lua.is_function s fn ≡ true) × (lua.resume s fn topic payload ≡ (t, yielded)))
      ⊎ ((u : S) × (e : Text) × (lua.is_function s fn ≡ true)
          × (lua.resume s fn topic payload ≡ (u, failed e))
          × (t ≡ lua.fire_error u e))

  -- All functions run, in order, each in the state that the one before leaves.
  pub AreRun : Text → Text → S → List Text → S → Type 0
  unfolding IsRun
  AreRun topic payload s [] t = s ≡ t
  AreRun topic payload s (fn ∷ fns) t =
      (u : S) × IsRun topic payload s fn u × AreRun topic payload u fns t

  report-IsRun :
      (topic payload : Text) (s : S) (fn : Text) (r : S × Outcome)
      → lua.is_function s fn ≡ true
      → lua.resume s fn topic payload ≡ r
      → IsRun topic payload s fn (report lua r)
  unfolding IsRun report
  report-IsRun topic payload s fn (t, ended) f e = inr (inl (f, e))
  report-IsRun topic payload s fn (t, yielded) f e = inr (inr (inl (f, e)))
  report-IsRun topic payload s fn (t, failed x) f e = inr (inr (inr (t, x, f, e, refl)))

  run_handler-IsRun :
      (topic payload : Text) (s : S) (fn : Text)
      → IsRun topic payload s fn (run_handler lua s fn topic payload)
  unfolding run_handler
  run_handler-IsRun topic payload s fn = elim (Bool-cases (lua.is_function s fn)) [
    | inl e ↦ rw e (report-IsRun topic payload s fn (lua.resume s fn topic payload) e refl)
    | inr e ↦ rw e (unfold IsRun in inl (e, refl))
  ]

  -- Where the filters of all handlers are accepted, a message goes to the functions of exactly the
  -- handlers the levels of whose filters match those of its topic, in the order of their registration,
  -- each in the state that the one before leaves. A function runs with the topic and the payload; its
  -- error goes to the error hook, as does a name that is that of no function, and neither stops the
  -- others.
  pub dispatch_mqtt-AreRun :
      (topic payload : Text) (handlers : List Handler) (s : S) (fns : List Text)
      → AreAccepted handlers
      → Receivers topic handlers fns
      → AreRun topic payload s fns (dispatch_mqtt lua handlers topic payload s)
  unfolding dispatch_mqtt AreRun
  dispatch_mqtt-AreRun topic payload _ s _ v no_handlers = refl
  dispatch_mqtt-AreRun topic payload _ s _ v (receives h hs fns m r) =
      let u = run_handler lua s h.fn topic payload in
      (
        u,
        run_handler-IsRun topic payload s h.fn,
        rw ((mqtt_topic_match-Matches h.pattern topic v.0).1 m)
            (dispatch_mqtt-AreRun topic payload hs u fns v.1 r),
      )
  dispatch_mqtt-AreRun topic payload _ s _ v (passes h hs fns m r) =
      elim (Bool-cases (mqtt_topic_match h.pattern topic)) [
        | inl e ↦ absurd (m ((mqtt_topic_match-Matches h.pattern topic v.0).0 e))
        | inr e ↦ rw e (dispatch_mqtt-AreRun topic payload hs s fns v.1 r)
      ]

All-snoc :
    (hs : List Handler) (h : Handler)
    → AreAccepted hs
    → validate_mqtt_pattern h.pattern ≡ none
    → AreAccepted (hs ++ (h ∷ []))
All-snoc [] h v e = (e, tt)
All-snoc (x ∷ hs) h v e = (v.0, All-snoc hs h v.1 e)

-- Registration keeps every registered filter an accepted one.
pub mqtt_on-AreAccepted :
    (hs : List Handler) (pattern fn : Text) → AreAccepted hs → AreAccepted (mqtt_on hs pattern fn).0
unfolding mqtt_on
mqtt_on-AreAccepted hs pattern fn v = elim (Option-cases (validate_mqtt_pattern pattern)) [
  | inl e ↦ rw (e, mqtt_on) (All-snoc hs _ v e)
  | inr (x, e) ↦ rw (e, mqtt_on) v
]

-- The check of the QoS is made after the number has been cut to a byte: 256 more is the same QoS.
pub mqtt_subscribe_wraps :
    (topic : Text) (q : ℕ)
    → q < 3
    → (k : ℕ) → mqtt_subscribe topic (pos (k * 256 + q)) ≡ call_hub topic q
unfolding mqtt_subscribe validate_mqtt_qos to_byte
mqtt_subscribe_wraps topic q h k =
    let e : (k * 256 + q) % 256 ≡ q = omega arith in rw e (ground arith)
