-- ===== src/Serve/Shared/Calls.antt =====
-- Calls that the workers make of the shared store. Each holds the mutex, so that a run of the workers
-- is a sequence of calls in some order.
use kalua.Prelude.{
  ℕ, ◌+◌, ◌%◌, ◌≡◌, ◌∙◌, false, List, [], ◌∷◌, arith, Bool-cases, All, if◌then◌else◌, inl, inr,
}
use kalua.Prelude.Text.{Text, text_eq, text_beq, text_beq_iff}
use kalua.Serve.Shared.{int64_mod, SharedState, set, del, incr}
use kalua.Serve.Shared.Counter.{get-set, get-del, value_of, incr-value_of}

pub data Call : Type 0 where
  set_call : Text → Text → Call
  del_call : Text → Call
  incr_call : Text → ℕ → Call

unfoldable pub call : SharedState → Call → SharedState
call s (set_call k v) = set s k v
call s (del_call k) = del s k
call s (incr_call k d) = (incr s k d).0

unfoldable pub calls : SharedState → List Call → SharedState
unfolding call
calls s [] = s
calls s (c ∷ cs) = calls (call s c) cs

-- The call does not set or delete the counter.
abbrev pub Counts : Text → Call → Type 0
Counts k (set_call j v) = text_beq j k ≡ false
Counts k (del_call j) = text_beq j k ≡ false
Counts k (incr_call j d) = Unit

abbrev amount : Text → Call → ℕ
amount k (set_call j v) = 0
amount k (del_call j) = 0
amount k (incr_call j d) = if text_beq j k then d else 0

unfoldable pub total : Text → List Call → ℕ
total k [] = 0
total k (c ∷ cs) = amount k c + total k cs

call-value_of :
    (k : Text) (s : SharedState) (c : Call)
    → Counts k c
    → value_of (call s c) k % int64_mod ≡ (value_of s k + amount k c) % int64_mod
unfolding call
call-value_of k s (set_call j v) h = rw (get-set s j k v, h) (ground arith)
call-value_of k s (del_call j) h = rw (get-del s j k, h) (ground arith)
call-value_of k s (incr_call j d) h = elim (Bool-cases (text_beq j k)) [
  | inl p ↦ rw (incr-value_of s j k d, p, (text_beq_iff j k).0 p) (ground arith)
  | inr p ↦ rw (incr-value_of s j k d, p) (ground arith)
]

-- In whatever order the calls of all the workers run, if none sets or deletes a counter then its value at the end
-- is its value at the start and the sum of all increments, modulo 2^64: no increment is lost.
pub calls-total :
    (k : Text) (s : SharedState) (cs : List Call)
    → All (Counts k) cs
    → value_of (calls s cs) k % int64_mod ≡ (value_of s k + total k cs) % int64_mod
unfolding calls total
calls-total k s [] h = ground arith
calls-total k s (c ∷ cs) h =
    calls-total k (call s c) cs h.1 ∙ omega (arith, call-value_of k s c h.0)
