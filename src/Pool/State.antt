-- ===== src/Pool/State.antt =====
-- The state of the pool, and the operations on one worker (internal/server/worker.go and
-- internal/server/server.go). A worker is the index of its cell in the heap `cells`.
use kalua.Prelude.{
  ℕ, ◌+◌, ◌-◌, ◌%◌, Bool, true, false, Option, none, some, List, [], ◌∷◌, ◌&&◌, ◌==◌, if◌then◌else◌,
}

abbrev pub int32_mod : ℕ
int32_mod = 4294967296

abbrev pub uint64_mod : ℕ
uint64_mod = 18446744073709551616

-- The fields of `Worker` that the pool changes: the tokens in `slot` (a channel of capacity one),
-- `refs` as the bit pattern of its int32, the flag `retired`, and whether `closeOnce` has run.
pub record Worker : Type 0 where
  pub slot : ℕ
  pub refs : ℕ
  pub retired : Bool
  pub closed : Bool

-- NewWorker, with the slot token seeded.
unfoldable pub new_worker : Worker
new_worker = record { slot = 1; refs = 0; retired = false; closed = false }

-- Close, under `closeOnce`.
unfoldable pub close : Worker → Worker
close w = record w { closed = true }

-- The critical section of a Reload: the old workers that are left to retire, whether the first of
-- them has its flag stored already, and the whole old pool.
pub record Swap : Type 0 where
  pub todo : List ℕ
  pub stored : Bool
  pub old : List ℕ

-- The server, and what its threads are about to do: `leases` counts the release functions that are
-- still to be called, `releasing` the calls of `release` between its Add and its Load, `running` the
-- handlers that hold a slot, `closing` the workers that `shutdown` is still to close, `seeding` the
-- tokens that waitIdle has received and not put back, and `waited` says that waitIdle returned for the
-- first worker to close.
pub record Server : Type 0 where
  pub cells : ℕ → Worker
  pub built : ℕ
  pub workers : List ℕ
  pub retired : List ℕ
  pub next_worker_idx : ℕ
  pub leases : ℕ → ℕ
  pub releasing : ℕ → ℕ
  pub running : ℕ → ℕ
  pub seeding : ℕ → ℕ
  pub reloading : Option Swap
  pub closing : List ℕ
  pub waited : Bool
  pub stopped : Bool

pub data Action : Type 0 where
  lease : Action
  release release_dec release_check : ℕ → Action
  acquire free : ℕ → Action
  reload : List Bool → Action
  retire_store retire_check unlock : Action
  shutdown : Action
  wait_idle : Bool → Action
  re_seed : Action
  shutdown_close : Action

abbrev pub update {ℓ} : {A : Type ℓ} → (ℕ → A) → ℕ → A → ℕ → A
update f a v b = if a == b then v else f b

abbrev pub bump : (ℕ → ℕ) → ℕ → ℕ → ℕ
bump f a = update f a (f a + 1)

abbrev pub drop_one : (ℕ → ℕ) → ℕ → ℕ → ℕ
drop_one f a = update f a (f a - 1)

abbrev pub init : Server
init = record {
  cells = λ w. new_worker;
  built = 0;
  workers = [];
  retired = [];
  next_worker_idx = 0;
  leases = λ w. 0;
  releasing = λ w. 0;
  running = λ w. 0;
  seeding = λ w. 0;
  reloading = none;
  closing = [];
  waited = false;
  stopped = false;
}

abbrev pub todo_of : Option Swap → List ℕ
todo_of none = []
todo_of (some x) = x.todo

abbrev pub old_of : Option Swap → List ℕ
old_of none = []
old_of (some x) = x.old

-- The worker whose flag a reload has stored, and whose references it is about to load.
abbrev pub is_head : ℕ → List ℕ → Bool
is_head w [] = false
is_head w (x ∷ xs) = x == w

abbrev pub is_checking : Option Swap → ℕ → Bool
is_checking none w = false
is_checking (some x) w = x.stored && is_head w x.todo

abbrev pub is_free : Option Swap → Bool
is_free none = true
is_free (some x) = false

-- The cell that a lease takes: one more reference.
unfoldable pub lease_cell : Worker → Worker
lease_cell w = record w { refs = (w.refs + 1) % int32_mod }

-- The Add(-1) of `release`.
unfoldable pub dec_cell : Worker → Worker
dec_cell w = record w { refs = (w.refs + (int32_mod - 1)) % int32_mod }

-- The rest of `release`, after its Add(-1) gave zero.
unfoldable pub check_cell : Worker → Worker
check_cell w = if w.retired then close w else w

-- The whole of `release`, with no other thread between its two operations.
unfoldable pub release_cell : Worker → Worker
unfolding dec_cell check_cell
release_cell w = if (dec_cell w).refs == 0 then check_cell (dec_cell w) else dec_cell w

-- The Load of its references, and Close.
unfoldable pub retire_cell : Worker → Worker
unfolding close
retire_cell w = if w.refs == 0 then close w else w
