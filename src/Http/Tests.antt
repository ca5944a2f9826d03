-- ===== src/Http/Tests.antt =====
-- A small interpreter, and the answers of a worker with it. A value is a number: 0 is nil, 1 a text and 2 a table with
-- a body; a function is the value that it returns, and each call adds 1 to the state.
use kalua.Prelude.{
  List, ◌==◌, ltb, ◌&&◌, ℕ, zero, suc, ◌+◌, ◌≡◌, refl, none, some, [], ◌∷◌, ◌++◌, if◌then◌else◌,
  true, length, elem, arith,
}
use kalua.Prelude.Text.{Text, bytes, text_beq}
use kalua.Http.{Lua, View, lua_nil, lua_string, lua_table, lua_other}
use kalua.Http.Dispatch.{
  Middleware, named, call_http, run_middleware, middleware_fn, middleware_answer,
}
use kalua.Http.Status.{HasStatus, call_http-HasStatus}
use kalua.Serve.Hub.{Hub, enqueue, offer, send_to}
use kalua.Serve.Hub.Run.{Call, send_call, call, calls, all_took, all_put, queue, refs}
use kalua.Serve.Hub.Refs.{IsValid, Distinct}
use kalua.Http.Events.{
  Resume, resume_ok, calls_of_run, call_event, echo, reply_of, first_fits, call_event-queue,
}

abbrev body_only : Text → ℕ
body_only name = if text_beq name (bytes "body") then 1 else 0

abbrev show : ℕ → View ℕ
show zero = lua_nil
show (suc zero) = lua_string (bytes "denied")
show (suc (suc zero)) = lua_table body_only []
show _ = lua_other

abbrev toy : Lua ℕ ℕ ℕ
toy = record {
  view = show;
  to_string = λ v. bytes "denied";
  stringify = λ v. none;
  stringify_error = λ v. bytes "no";
  global = λ s name.
      if text_beq name (bytes "auth")
      then some 2
      else if text_beq name (bytes "log")
      then some 0
      else none;
  call_error = λ fn s. none;
  call_value = λ fn s. fn;
  call_state = λ fn s. s + 1;
}

abbrev log : Middleware ℕ
log = named (bytes "log")

abbrev auth : Middleware ℕ
auth = named (bytes "auth")

call_http-HasStatus_example :
    HasStatus (call_http toy true (log ∷ []) (bytes "log" ∷ []) (some 0) none 5).1
unfolding run_middleware middleware_fn middleware_answer
call_http-HasStatus_example =
    call_http-HasStatus toy true (log ∷ []) (bytes "log" ∷ []) (some 0) none 5 refl

abbrev two_clients : Hub
two_clients = record {
  objects =
      record { id = bytes "ws1"; send_ch = bytes "hi" ∷ [] }
      ∷ record { id = bytes "ws2"; send_ch = [] }
      ∷ [];
  conns = (bytes "ws1", 0) ∷ (bytes "ws2", 1) ∷ [];
  accept_ch = [];
  accept_cap = 0;
}

-- A coroutine that sends to the other client and ends with the value of the function.
abbrev run_to_end : ℕ → ℕ → Hub → ℕ × List Call × Resume ℕ
run_to_end fn s h = (s + 1, send_call (some 1) (bytes "note") ∷ [], resume_ok (fn ∷ []))

abbrev no_hook : Text → ℕ → Hub → ℕ × List Call
no_hook err s h = (s, [])

replied :
    queue (call_event toy run_to_end no_hook (some 1) two_clients (some 0) 5).1.objects 0
    ≡ bytes "hi" ∷ bytes "denied" ∷ []
unfolding call_event echo enqueue queue offer calls call send_to
replied = refl

noted :
    queue (call_event toy run_to_end no_hook (some 1) two_clients (some 0) 5).1.objects 1
    ≡ bytes "note" ∷ []
unfolding call_event echo enqueue queue offer calls call send_to
noted = refl

valid : IsValid two_clients
unfolding IsValid refs elem Distinct
valid = (((omega arith), ((omega arith), tt)), (refl, (refl, tt)))

call_event-queue_example :
    let cs = calls_of_run toy run_to_end no_hook two_clients (run_to_end 1 5 two_clients) in
    all_took 1 two_clients cs
      ++ queue (call_event toy run_to_end no_hook (some 1) two_clients (some 0) 5).1.objects 1
    ≡ queue two_clients.objects 1
      ++ (all_put 1 two_clients cs
          ++ first_fits toy run_to_end no_hook
              (calls two_clients cs).objects
              1
              (0 == 1 && ltb 1 (length (calls two_clients cs).objects))
              (reply_of toy run_to_end no_hook (run_to_end 1 5 two_clients).2))
call_event-queue_example = call_event-queue toy run_to_end no_hook 1 two_clients 1 0 5 valid
