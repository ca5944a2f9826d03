-- ===== src/Pool/Races.antt =====
-- Two interleavings in which a Lua state is closed under a thread that uses it.
use kalua.Prelude.{
  ℕ, ◌+◌, ◌-◌, ◌%◌, ◌<◌, ◌≡◌, refl, ◌∙◌, true, false, none, some, List, [], ◌∷◌, ◌++◌, nat_eq,
  arith,
}
use kalua.Pool.State.{
  uint64_mod, drop_one, bump, lease_cell, dec_cell, retire_cell, check_cell, Server, lease,
  release_dec, release_check, acquire, reload, retire_store, retire_check, unlock, wait_idle,
  re_seed, shutdown_close, update, new_worker, close,
}
use kalua.Pool.Steps.{step, run, build_workers, swap_pool, lease_found}
use kalua.Pool.Keeps.{run-cons}

-- The states of the race, one after each step.
abbrev raced1 : Server → ℕ → Server
raced1 s w = record s {
  cells = update s.cells w (dec_cell (s.cells w));
  leases = drop_one s.leases w;
  releasing = bump s.releasing w;
}

abbrev raced2 : Server → ℕ → Server
raced2 s w = record s {
  next_worker_idx = (s.next_worker_idx + 1) % uint64_mod;
  cells = update s.cells w (lease_cell (s.cells w));
  leases = bump s.leases w;
}

abbrev raced3 : Server → ℕ → Server
raced3 s w = record s {
  cells = update s.cells s.built new_worker;
  built = s.built + 1;
  workers = s.built ∷ [];
  next_worker_idx = 0;
  reloading = some (record { todo = w ∷ []; stored = false; old = w ∷ [] });
}

abbrev raced4 : Server → ℕ → Server
raced4 s w = record s {
  cells = update s.cells w (record (s.cells w) { retired = true });
  reloading = some (record { todo = w ∷ []; stored = true; old = w ∷ [] });
}

abbrev raced5 : Server → ℕ → Server
raced5 s w = record s {
  cells = update s.cells w (retire_cell (s.cells w));
  reloading = some (record { todo = []; stored = false; old = w ∷ [] });
}

abbrev raced6 : Server → ℕ → Server
raced6 s w = record s { retired = s.retired ++ w ∷ []; reloading = none }

abbrev raced7 : Server → ℕ → Server
raced7 s w = record s {
  cells = update s.cells w (check_cell (s.cells w));
  releasing = drop_one s.releasing w;
}

abbrev raced : Server → ℕ → Server
raced s w = raced7 (raced6 (raced5 (raced4 (raced3 (raced2 (raced1 s w) w) w) w) w) w) w

module _ (s : Server) (w : ℕ) where
  step1 : s.leases w ≡ 1 → (s.cells w).refs ≡ 1 → step (release_dec w) s ≡ some (raced1 s w)
  unfolding step dec_cell
  step1 l r = ground arith

  step2 : s.workers ≡ w ∷ [] → s.reloading ≡ none → step lease s ≡ some (raced2 s w)
  unfolding step
  step2 e r = rw (e, r) (unfold lease_found in ground arith)

  step3 : s.workers ≡ w ∷ [] → s.reloading ≡ none → step (reload (true ∷ [])) s ≡ some (raced3 s w)
  unfolding step build_workers swap_pool
  step3 e r = rw (e, r)

  step4 :
      s.reloading ≡ some (record { todo = w ∷ []; stored = false; old = w ∷ [] })
      → step retire_store s ≡ some (raced4 s w)
  unfolding step
  step4 e = rw e

  step5 :
      s.reloading ≡ some (record { todo = w ∷ []; stored = true; old = w ∷ [] })
      → step retire_check s ≡ some (raced5 s w)
  unfolding step
  step5 e = rw e

  step6 :
      s.reloading ≡ some (record { todo = []; stored = false; old = w ∷ [] })
      → step unlock s ≡ some (raced6 s w)
  unfolding step
  step6 e = rw e

  step7 : 0 < s.releasing w → step (release_check w) s ≡ some (raced7 s w)
  unfolding step
  step7 e = ground arith

raced_cells :
    (s : Server) (w : ℕ)
    → s.leases w ≡ 1
    → (s.cells w).refs ≡ 1
    → w < s.built
    → (0 < (raced6 (raced5 (raced4 (raced3 (raced2 (raced1 s w) w) w) w) w) w).releasing w)
      × (((raced s w).cells w).closed ≡ true)
      × ((raced s w).leases w ≡ 1)
unfolding dec_cell lease_cell retire_cell check_cell close
raced_cells s w l r b = ground arith

-- In any pool of one worker with one lease out and no reload in progress, the holder of that lease
-- can be preempted in release between its Add and its Load; a new lease and a successful reload then
-- let it close the Lua state while the new lease is out, and no shutdown has begun.
pub release_race :
    (s : Server) (w : ℕ)
    → s.workers ≡ w ∷ []
    → s.reloading ≡ none
    → s.leases w ≡ 1
    → (s.cells w).refs ≡ 1
    → w < s.built
    → (t : Server) × (run
          (release_dec w
            ∷ lease
            ∷ reload (true ∷ [])
            ∷ retire_store
            ∷ retire_check
            ∷ unlock
            ∷ release_check w
            ∷ [])
          s
        ≡ some t)
      × ((t.cells w).closed ≡ true)
      × (t.leases w ≡ 1)
      × (t.stopped ≡ s.stopped)
release_race s w e n l r b =
    let s1 = raced1 s w in
    let s2 = raced2 s1 w in
    let s3 = raced3 s2 w in
    let s4 = raced4 s3 w in
    let s5 = raced5 s4 w in
    let s6 = raced6 s5 w in
    let facts = raced_cells s w l r b in
    (
      raced s w,
      run-cons _ _ s s1 (step1 s w l r)
          ∙ run-cons _ _ s1 s2 (step2 s1 w e n)
          ∙ run-cons _ _ s2 s3 (step3 s2 w e n)
          ∙ run-cons _ _ s3 s4 (step4 s3 w refl)
          ∙ run-cons _ _ s4 s5 (step5 s4 w refl)
          ∙ run-cons _ _ s5 s6 (step6 s5 w refl)
          ∙ run-cons _ _ s6 (raced s w) (step7 s6 w facts.0)
          ∙ unfold run in refl,
      facts.1,
      facts.2,
      refl,
    )

-- In a shutdown that has found a worker idle, a thread that takes the worker's slot before the
-- Close runs its handler on a closed Lua state.
pub idle_race :
    (s : Server) (w : ℕ) (ws : List ℕ)
    → s.closing ≡ w ∷ ws
    → s.waited ≡ false
    → s.seeding w ≡ 0
    → (s.cells w).slot ≡ 1
    → s.running w ≡ 0
    → w < s.built
    → (t : Server) × (run (wait_idle false ∷ re_seed ∷ acquire w ∷ shutdown_close ∷ []) s ≡ some t)
      × ((t.cells w).closed ≡ true)
      × (t.running w ≡ 1)
idle_race s w ws c d z o r b =
    let s0 = record s {
      cells = update s.cells w (record (s.cells w) { slot = (s.cells w).slot - 1 });
      seeding = bump s.seeding w;
    } in
    let s1 = record s0 {
      cells = update s0.cells w (record (s0.cells w) { slot = (s0.cells w).slot + 1 });
      seeding = drop_one s0.seeding w;
      waited = true;
    } in
    let s2 = record s1 {
      cells = update s1.cells w (record (s1.cells w) { slot = (s1.cells w).slot - 1 });
      running = bump s1.running w;
    } in
    let s3 = record s2 {
      cells = update s2.cells w (close (s2.cells w));
      closing = ws;
      waited = false;
    } in
    (
      s3,
      run-cons (wait_idle false) _ s s0 (unfold step in rw (c, d, z, o))
          ∙ run-cons re_seed _ s0 s1 (unfold step in rw c (ground arith))
          ∙ run-cons (acquire w) _ s1 s2 (unfold step in ground arith)
          ∙ run-cons shutdown_close _ s2 s3 (unfold step in rw c)
          ∙ unfold run in refl,
      unfold close in ground arith,
      ground arith,
    )
