-- ===== src/Http/Events.antt =====
-- CallWS, CallTCP, CallInit and CallShutdown of internal/server/worker.go, which run a handler as a
-- coroutine. A run of one is a parameter: it can use the hub of the connections, as can all others while it
-- lasts, and gives the calls of the hub that were made meanwhile. The error hook, which is Lua code too,
-- does so as well.
use kalua.Prelude.{
  ℕ, ◌≡◌, sym, Bool, ◌&&◌, Option, none, some, List, [], ◌∷◌, ◌++◌, append-nil, append_assoc, ap,
  ◌∙◌, if◌then◌else◌, ltb, ◌==◌, length, Bool-cases, inl, inr,
}
use kalua.Prelude.Text.{Text}
use kalua.Serve.Hub.{Hub, Conn, enqueue}
use kalua.Serve.Hub.Run.{Call, queue, calls, all_took, all_put}
use kalua.Serve.Hub.Refs.{IsValid}
use kalua.Serve.Hub.Order.{fifo, calls-append}
use kalua.Serve.Hub.Queue.{queue-enqueue, fits}
use kalua.Http.{Lua}
use kalua.Http.Dispatch.{is_lua_nil}

pub data Resume {ℓ} (V : Type ℓ) : Type ℓ where
  resume_ok : List V → Resume V
  resume_yield : Resume V
  resume_error : Text → Resume V

module _ {ℓ} {S V F : Type ℓ} (lua : Lua S V F) (resume : F → S → Hub → S × List Call × Resume V)
    (notify_error : Text → S → Hub → S × List Call) where
  -- The first value returned goes to the client, if there is a client and the value is not nil.
  unfoldable pub echo : List Conn → Option ℕ → List V → List Conn
  unfolding enqueue
  echo objects none ret = objects
  echo objects (some r) [] = objects
  echo objects (some r) (v ∷ vs) =
      if is_lua_nil (lua.view v) then objects else (enqueue objects r (lua.to_string v)).0

  abbrev pub finish : Hub → Option ℕ → S × List Call × Resume V → S × Hub
  unfolding echo
  finish h conn (s, cs, resume_ok ret) =
      let after = calls h cs in (s, record after { objects = echo after.objects conn ret })
  finish h conn (s, cs, resume_yield) = (s, calls h cs)
  finish h conn (s, cs, resume_error err) =
      let hook = notify_error err s (calls h cs) in (hook.0, calls (calls h cs) hook.1)

  -- CallWS and CallTCP; the client's connection may be nil.
  unfoldable pub call_event : Option F → Hub → Option ℕ → S → S × Hub
  unfolding finish
  call_event none h conn s = (s, h)
  call_event (some fn) h conn s = finish h conn (resume fn s h)

  -- The calls of the hub from the start of a run to its end, with those of the error hook.
  pub calls_of_run : Hub → S × List Call × Resume V → List Call
  calls_of_run h (s, cs, resume_ok ret) = cs
  calls_of_run h (s, cs, resume_yield) = cs
  calls_of_run h (s, cs, resume_error err) = cs ++ (notify_error err s (calls h cs)).1

  -- The text that a run of a handler sends to the client.
  abbrev pub reply_of : Resume V → List Text
  reply_of (resume_ok (v ∷ vs)) = if is_lua_nil (lua.view v) then [] else lua.to_string v ∷ []
  reply_of (resume_ok []) = []
  reply_of resume_yield = []
  reply_of (resume_error err) = []

  abbrev pub first_fits : List Conn → ℕ → Bool → List Text → List Text
  first_fits objects r wanted [] = []
  first_fits objects r wanted (text ∷ rest) = fits objects r wanted text

  finish-queue :
      (h : Hub) (r c : ℕ) (run : S × List Call × Resume V)
      → queue (finish h (some c) run).1.objects r
        ≡ queue (calls h (calls_of_run h run)).objects r
          ++ first_fits
              (calls h (calls_of_run h run)).objects
              r
              (c == r && ltb r (length (calls h (calls_of_run h run)).objects))
              (reply_of run.2)
  unfolding echo calls_of_run
  finish-queue h r c (s, cs, resume_ok []) = sym (append-nil (queue (calls h cs).objects r))
  finish-queue h r c (s, cs, resume_ok (v ∷ vs)) = elim (Bool-cases (is_lua_nil (lua.view v))) [
    | inl p ↦ rw p (sym (append-nil (queue (calls h cs).objects r)))
    | inr p ↦ rw p (queue-enqueue (calls h cs).objects c r (lua.to_string v))
  ]
  finish-queue h r c (s, cs, resume_yield) = sym (append-nil (queue (calls h cs).objects r))
  finish-queue h r c (s, cs, resume_error err) =
      let ns = (notify_error err s (calls h cs)).1 in
      ap (λ (g : Hub). queue g.objects r) (sym (calls-append h cs ns))
      ∙ sym (append-nil (queue (calls h (cs ++ ns)).objects r))

  -- Around a run of a handler for a connection, what the pump of any connection takes out of its queue,
  -- followed by the queue after the run, is the queue before it, followed by what the calls of the hub
  -- during the run add, those of the handler itself and of the error hook included, and then, for the
  -- connection of the run only, the text of the first value that the handler returns, if it ends, the
  -- value is not nil and the queue has room.
  pub call_event-queue :
      (fn : F) (h : Hub) (r c : ℕ) (s : S)
      → IsValid h
      → let cs = calls_of_run h (resume fn s h) in
        all_took r h cs ++ queue (call_event (some fn) h (some c) s).1.objects r
        ≡ queue h.objects r
          ++ (all_put r h cs
              ++ first_fits
                  (calls h cs).objects
                  r
                  (c == r && ltb r (length (calls h cs).objects))
                  (reply_of (resume fn s h).2))
  unfolding call_event
  call_event-queue fn h r c s v =
      let run = resume fn s h in
      let cs = calls_of_run h run in
      let more =
        first_fits (calls h cs).objects r (c == r && ltb r (length (calls h cs).objects))
          (reply_of run.2) in
      ap (λ q. all_took r h cs ++ q) (finish-queue h r c run)
      ∙ sym (append_assoc (all_took r h cs) (queue (calls h cs).objects r) more)
      ∙ ap (λ q. q ++ more) (fifo r h cs v)
      ∙ append_assoc (queue h.objects r) (all_put r h cs) more

module _ {ℓ} {S V F : Type ℓ} (init : F → S → S × Resume V) where
  abbrev pub lifecycle : S × Resume V → S × Option Text × List Text
  lifecycle (s, resume_ok ret) = (s, none, [])
  lifecycle (s, resume_yield) = (s, none, [])
  lifecycle (s, resume_error err) = (s, some err, err ∷ [])

  -- CallInit, with the error that it returns; CallShutdown only reports it.
  unfoldable pub call_init : Option F → S → S × Option Text × List Text
  call_init none s = (s, none, [])
  call_init (some fn) s = lifecycle (init fn s)
