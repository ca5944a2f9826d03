-- ===== src/Pool/Tests.antt =====
-- Runs of the pool, and its theorems at concrete inputs.
use kalua.Prelude.{
  ◌≤◌, ◌<◌, ◌≡◌, refl, ◌⊎◌, true, false, none, some, List, [], ◌∷◌, ◌++◌, arith, nat_eq,
}
use kalua.Pool.State.{
  Server, Action, lease, release, release_dec, release_check, acquire, free, reload, retire_store,
  retire_check, unlock, shutdown, wait_idle, init, new_worker,
}
use kalua.Pool.Steps.{step, run}
use kalua.Pool.Leases.{retired_closed, closed_unleased}
use kalua.Pool.Count.{few_leases}
use kalua.Pool.Races.{release_race}
use kalua.Pool.Shutdown.{close_out, shutdown_closes, failed_reload}

-- The state after a schedule, or the start where it is not enabled.
abbrev after : List Action → Server
after as_ = elim (run as_ init) [ none ↦ init | some s ↦ s ]

-- One worker, one request, and a reload while it runs.
abbrev reloaded : List Action
reloaded =
    reload (true ∷ [])
    ∷ unlock
    ∷ lease
    ∷ acquire 0
    ∷ reload (true ∷ [])
    ∷ retire_store
    ∷ retire_check
    ∷ unlock
    ∷ free 0
    ∷ release 0
    ∷ []

reloaded-run : run reloaded init ≡ some (after reloaded)
unfolding run step new_worker
reloaded-run = refl

retired_closed_example : ((after reloaded).cells 0).closed ≡ true
unfolding run step new_worker
retired_closed_example = retired_closed reloaded (after reloaded) 0 reloaded-run refl refl refl refl

closed_unleased_example : (after reloaded).leases 0 ≡ 0
unfolding run step new_worker
closed_unleased_example =
    closed_unleased reloaded (after reloaded) 0 (omega arith) reloaded-run
      (few_leases reloaded 0 (omega arith)) refl refl

-- Between the receive and the freeSlot of waitIdle the token is with neither the slot nor a handler.
abbrev taken : List Action
taken = reload (true ∷ []) ∷ unlock ∷ shutdown ∷ wait_idle false ∷ []

token_taken :
    (((after taken).cells 0).slot ≡ 0)
    × ((after taken).running 0 ≡ 0)
    × ((after taken).seeding 0 ≡ 1)
unfolding run step new_worker
token_taken = (refl, refl, refl)

-- One worker with one lease out.
abbrev leased : List Action
leased = reload (true ∷ []) ∷ unlock ∷ lease ∷ []

abbrev race : List Action
race =
    release_dec 0
    ∷ lease
    ∷ reload (true ∷ [])
    ∷ retire_store
    ∷ retire_check
    ∷ unlock
    ∷ release_check 0
    ∷ []

release_race_example :
    (t : Server) × (run race (after leased) ≡ some t)
    × ((t.cells 0).closed ≡ true)
    × (t.leases 0 ≡ 1)
    × (t.stopped ≡ (after leased).stopped)
unfolding run step new_worker
release_race_example = release_race (after leased) 0 refl refl refl refl (omega arith)

abbrev closing : List Action
closing = reload (true ∷ []) ∷ unlock ∷ shutdown ∷ []

shutdown_closes_example :
    (t : Server) × (run
        (shutdown ∷ close_out ((after reloaded).workers ++ (after reloaded).retired))
        (after reloaded)
      ≡ some t)
    × ((t.cells 1).closed ≡ true)
unfolding run step new_worker
shutdown_closes_example =
    shutdown_closes reloaded (after reloaded) 1 reloaded-run refl refl (omega arith)

-- The second of three NewWorkers fails.
abbrev broken : Server
broken = elim (step (reload (true ∷ false ∷ true ∷ [])) (after leased)) [ none ↦ init | some s ↦ s ]

failed_reload_example :
    (broken.workers ≡ (after leased).workers)
    × (broken.next_worker_idx ≡ (after leased).next_worker_idx)
    × (broken.reloading ≡ none)
    × ((1 < (after leased).built) × (broken.cells 1 ≡ (after leased).cells 1)
        ⊎ ((after leased).built ≤ 1) × ((broken.cells 1).closed ≡ true))
unfolding run step new_worker
failed_reload_example =
    failed_reload (true ∷ false ∷ true ∷ []) (after leased) broken 1 refl refl (omega arith)
