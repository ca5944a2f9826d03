-- ===== src/Pool/Steps.antt =====
-- The steps of the pool's threads: one function for each atomic section of the source
-- (internal/server/worker.go and internal/server/server.go).
use kalua.Prelude.{
  ℕ, ◌+◌, ◌-◌, ◌%◌, Bool, true, false, Option, none, some, List, [], ◌∷◌, ◌++◌, length, get_elem?,
  ltb, ◌&&◌, ◌||◌, ◌==◌, if◌then◌else◌,
}
use kalua.Pool.State.{
  Worker, new_worker, close, Swap, Server, Action, lease, release, release_dec, release_check,
  acquire, free, reload, retire_store, retire_check, unlock, shutdown, wait_idle, re_seed,
  shutdown_close, bump, drop_one, update, is_free, uint64_mod, lease_cell, dec_cell, check_cell,
  release_cell, retire_cell,
}

unfoldable pub lease_found : Option ℕ → ℕ → Server → Option Server
unfolding lease_cell
lease_found none n s = none
lease_found (some w) n s = some (record s {
  next_worker_idx = n;
  cells = update s.cells w (lease_cell (s.cells w));
  leases = bump s.leases w;
})

-- leaseWorker under its lock; nothing happens on an empty pool.
pub lease_locked : Server → Option Server
unfolding lease_found
lease_locked s =
    let n = (s.next_worker_idx + 1) % uint64_mod in
    if length s.workers == 0
    then some s
    else lease_found (get_elem? s.workers (n % length s.workers)) n s

-- leaseWorker, which waits for the lock while a Reload holds it.
pub lease_worker : Server → Option Server
unfolding lease_locked
lease_worker s = if is_free s.reloading then lease_locked s else none

-- `release` up to its Add(-1). Only a thread that holds a lease calls it.
release_first : ℕ → Server → Option Server
unfolding dec_cell
release_first w s =
    if ltb 0 (s.leases w)
    then some (record s {
      cells = update s.cells w (dec_cell (s.cells w));
      leases = drop_one s.leases w;
      releasing = if (dec_cell (s.cells w)).refs == 0 then bump s.releasing w else s.releasing;
    })
    else none

-- The Load of the flag, and Close, by a thread whose Add(-1) gave zero.
release_second : ℕ → Server → Option Server
unfolding check_cell close
release_second w s =
    if ltb 0 (s.releasing w)
    then some (record s {
      cells = update s.cells w (check_cell (s.cells w));
      releasing = drop_one s.releasing w;
    })
    else none

release_whole : ℕ → Server → Option Server
unfolding release_cell
release_whole w s =
    if ltb 0 (s.leases w)
    then some (record s {
      cells = update s.cells w (release_cell (s.cells w));
      leases = drop_one s.leases w;
    })
    else none

-- acquireSlot, and a tryAcquireSlot that succeeds, on a worker that exists; a thread that finds no
-- token waits.
acquire_slot : ℕ → Server → Option Server
acquire_slot w s =
    if ltb w s.built && ltb 0 (s.cells w).slot
    then some (record s {
      cells = update s.cells w (record (s.cells w) { slot = (s.cells w).slot - 1 });
      running = bump s.running w;
    })
    else none

-- freeSlot, by a handler that holds the slot.
free_slot : ℕ → Server → Option Server
free_slot w s =
    if ltb 0 (s.running w)
    then some (record s {
      cells = update s.cells w (record (s.cells w) { slot = (s.cells w).slot + 1 });
      running = drop_one s.running w;
    })
    else none

unfoldable pub close_all : List ℕ → (ℕ → Worker) → ℕ → Worker
unfolding close
close_all [] cells = cells
close_all (w ∷ ws) cells = close_all ws (update cells w (close (cells w)))

-- buildWorkers: the list says for each NewWorker in turn whether it succeeds. A failure closes the
-- workers that were built before it.
unfoldable pub build_workers : List Bool → List ℕ → Server → Option (List ℕ) × Server
unfolding close_all
build_workers [] acc s = (some acc, s)
build_workers (false ∷ rs) acc s = (none, record s { cells = close_all acc s.cells })
build_workers (true ∷ rs) acc s =
    build_workers rs (acc ++ s.built ∷ [])
      (record s { cells = update s.cells s.built new_worker; built = s.built + 1 })

-- Reload up to its loop: an error of buildWorkers leaves the pool; otherwise the pool is swapped
-- under the lock.
unfoldable pub swap_pool : Option (List ℕ) × Server → Server
swap_pool (none, s) = s
swap_pool (some ws, s) = record s {
  workers = ws;
  next_worker_idx = 0;
  reloading = some (record { todo = s.workers; stored = false; old = s.workers });
}

reload_begin : List Bool → Server → Option Server
unfolding build_workers swap_pool
reload_begin rs s = if is_free s.reloading then some (swap_pool (build_workers rs [] s)) else none

-- `retired.Store(true)` of the next old worker.
store_head : List ℕ → Swap → Server → Option Server
store_head [] x s = none
store_head (w ∷ ws) x s =
    if x.stored
    then none
    else some (record s {
      cells = update s.cells w (record (s.cells w) { retired = true });
      reloading = some (record x { stored = true });
    })

retire_first : Option Swap → Server → Option Server
unfolding store_head
retire_first none s = none
retire_first (some x) s = store_head x.todo x s

-- The Load of the references of the same worker, and Close.
check_head : List ℕ → Swap → Server → Option Server
unfolding retire_cell
check_head [] x s = none
check_head (w ∷ ws) x s =
    if x.stored
    then some (record s {
      cells = update s.cells w (retire_cell (s.cells w));
      reloading = some (record x { todo = ws; stored = false });
    })
    else none

retire_second : Option Swap → Server → Option Server
unfolding check_head
retire_second none s = none
retire_second (some x) s = check_head x.todo x s

-- The end of the critical section.
end_swap : List ℕ → Swap → Server → Option Server
end_swap [] x s = some (record s { retired = s.retired ++ x.old; reloading = none })
end_swap (w ∷ ws) x s = none

reload_end : Option Swap → Server → Option Server
unfolding end_swap
reload_end none s = none
reload_end (some x) s = end_swap x.todo x s

-- The critical section of `shutdown`, which Run calls once.
shutdown_begin : Server → Option Server
shutdown_begin s =
    if is_free s.reloading
    then if s.stopped
      then none
      else some (record s {
        workers = [];
        retired = [];
        closing = s.workers ++ s.retired;
        waited = false;
        stopped = true;
      })
    else none

-- waitIdle of the next worker: it receives the token, or its timer ends. A wait begins when the worker
-- before is closed.
wait_next : Bool → List ℕ → Server → Option Server
wait_next timed_out [] s = none
wait_next timed_out (w ∷ ws) s =
    if s.waited || ltb 0 (s.seeding w)
    then none
    else if timed_out
    then some (record s { waited = true })
    else if ltb 0 (s.cells w).slot
    then some (record s {
      cells = update s.cells w (record (s.cells w) { slot = (s.cells w).slot - 1 });
      seeding = bump s.seeding w;
    })
    else none

-- The freeSlot of waitIdle, which puts the token back.
seed_next : List ℕ → Server → Option Server
seed_next [] s = none
seed_next (w ∷ ws) s =
    if ltb 0 (s.seeding w)
    then some (record s {
      cells = update s.cells w (record (s.cells w) { slot = (s.cells w).slot + 1 });
      seeding = drop_one s.seeding w;
      waited = true;
    })
    else none

close_next : List ℕ → Server → Option Server
unfolding close
close_next [] s = none
close_next (w ∷ ws) s =
    if s.waited
    then some
        (record s { cells = update s.cells w (close (s.cells w)); closing = ws; waited = false })
    else none

-- One step of one thread; `none` where no thread can make it.
unfoldable pub step : Action → Server → Option Server
unfolding lease_worker lease_cell release_first release_second release_whole acquire_slot free_slot
    reload_begin retire_first retire_second reload_end shutdown_begin wait_next seed_next close_next
step lease s = lease_worker s
step (release w) s = release_whole w s
step (release_dec w) s = release_first w s
step (release_check w) s = release_second w s
step (acquire w) s = acquire_slot w s
step (free w) s = free_slot w s
step (reload rs) s = reload_begin rs s
step retire_store s = retire_first s.reloading s
step retire_check s = retire_second s.reloading s
step unlock s = reload_end s.reloading s
step shutdown s = shutdown_begin s
step (wait_idle timed_out) s = wait_next timed_out s.closing s
step re_seed s = seed_next s.closing s
step shutdown_close s = close_next s.closing s

-- A schedule of steps; `none` if one of them is not enabled.
unfoldable pub run : List Action → Server → Option Server
run [] s = some s
run (a ∷ as_) s = elim (step a s) [ none ↦ none | some t ↦ run as_ t ]
