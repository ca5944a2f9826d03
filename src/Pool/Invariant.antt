-- ===== src/Pool/Invariant.antt =====
-- What holds of every worker between any two steps, whatever the threads do.
use kalua.Prelude.{ℕ, ◌+◌, ◌%◌, ◌≤◌, ◌<◌, ◌≡◌, ◌⊎◌, true, false, ◌||◌, List, nat_eq, elem}
use kalua.Pool.State.{Server, int32_mod, todo_of, old_of, is_checking}

-- `acc` lists the workers that a buildWorkers in progress has made.
pub record IsSound (acc : List ℕ) (s : Server) (w : ℕ) : Type 0 where
  pub counted : (s.cells w).refs ≡ s.leases w % int32_mod
  pub slot_once : (s.cells w).slot + s.running w + s.seeding w ≡ 1
  pub live : elem w s.workers ≡ true → ((s.cells w).retired ≡ false) × ((s.cells w).closed ≡ false)
  pub no_leak :
      (s.cells w).retired ≡ true
      → (s.cells w).refs ≡ 0
      → ((s.cells w).closed ≡ true) ⊎ (0 < s.releasing w) ⊎ (is_checking s.reloading w ≡ true)
  pub apart :
      elem w s.workers ≡ true
      → (elem w (todo_of s.reloading)
          || elem w (old_of s.reloading)
          || elem w s.retired
          || elem w s.closing)
        ≡ false
  pub owned :
      w < s.built
      → (elem w s.workers
          || elem w s.retired
          || elem w (old_of s.reloading)
          || elem w s.closing
          || (s.cells w).closed
          || elem w acc)
        ≡ true
  pub idle : s.stopped ≡ false → elem w s.closing ≡ false
  pub unseeded : s.stopped ≡ false → s.seeding w ≡ 0
  pub fresh :
      s.built ≤ w
      → (s.leases w ≡ 0)
        × (s.running w ≡ 0)
        × (s.seeding w ≡ 0)
        × (elem w s.workers ≡ false)
        × (elem w (todo_of s.reloading) ≡ false)
        × (elem w (old_of s.reloading) ≡ false)
        × (elem w s.retired ≡ false)
        × (elem w s.closing ≡ false)
        × (elem w acc ≡ false)
  pub pending :
      elem w acc ≡ true
      → ((s.cells w).retired ≡ false)
        × ((s.cells w).closed ≡ false)
        × (s.leases w ≡ 0)
        × (elem w s.workers ≡ false)
        × (elem w s.retired ≡ false)
        × (elem w s.closing ≡ false)
