-- ===== src/Pool/Count.antt =====
-- A schedule takes at most one lease at each step.
use mathlib.Core.Path.{subst}
use kalua.Prelude.{
  ℕ, ◌+◌, ◌≤◌, ◌<◌, ◌≡◌, refl, ap, inl, inr, Bool, true, false, Option, none, some, List, [], ◌∷◌,
  ◌++◌, Option-cases, some_inj, none-ne-some, get_elem?, take, length, length-take, arith,
}
use kalua.Pool.State.{Server, Action, lease, reload, int32_mod, init, update, new_worker}
use kalua.Pool.Steps.{step, run, build_workers, swap_pool, lease_found}
use kalua.Pool.Keeps.{Swap-cases, enabled, lease_cases}

lease_found-leases :
    (o : Option ℕ) (n : ℕ) (s t : Server) (w : ℕ)
    → lease_found o n s ≡ some t
    → t.leases w ≤ s.leases w + 1
unfolding lease_found
lease_found-leases none n s t w e = cc
lease_found-leases (some v) n s t w e = ground arith

build-leases :
    (rs : List Bool) (acc : List ℕ) (s : Server) (w : ℕ)
    → (swap_pool (build_workers rs acc s)).leases w ≡ s.leases w
unfolding build_workers swap_pool
build-leases [] acc s w = refl
build-leases (false ∷ rs) acc s w = refl
build-leases (true ∷ rs) acc s w =
    build-leases rs (acc ++ s.built ∷ [])
      (record s { cells = update s.cells s.built new_worker; built = s.built + 1 }) w

step-leases : (a : Action) (s t : Server) (w : ℕ) → step a s ≡ some t → t.leases w ≤ s.leases w + 1
unfolding step
step-leases lease s t w e = elim (lease_cases s t e) [
  | inl p ↦ omega (arith, ap (λ (u : Server). u.leases w) p)
  | inr (j, n, p) ↦ lease_found-leases (get_elem? s.workers j) n s t w p
]
step-leases (reload rs) s t w e = elim (Swap-cases s.reloading) [
  | inl p ↦
      subst (λ (u : Server). u.leases w ≤ s.leases w + 1) (enabled _ _ _ e)
        (omega (arith, build-leases rs [] s w))
  | inr p ↦ ground (arith, p, e)
]
step-leases _ s t w e = ground arith

pub run-leases :
    (as_ : List Action) (s t : Server) (w : ℕ)
    → run as_ s ≡ some t
    → t.leases w ≤ s.leases w + length as_
unfolding run
run-leases [] s t w e =
    subst (λ (u : Server). u.leases w ≤ s.leases w + 0) (some_inj e) (omega arith)
run-leases (a ∷ as_) s t w e = elim (Option-cases (step a s)) [
  | inl p ↦ absurd (none-ne-some (rw (p, run) at e))
  | inr (u, p) ↦ omega (arith, step-leases a s u w p, run-leases as_ u t w (rw (p, run) at e))
]

-- No prefix of a schedule of fewer than 2^32 steps has 2^32 leases out.
pub few_leases :
    (as_ : List Action) (w : ℕ)
    → length as_ < int32_mod
    → (n : ℕ) (u : Server) → run (take n as_) init ≡ some u
    → u.leases w < int32_mod
few_leases as_ w h n u e = omega (arith, run-leases (take n as_) init u w e, length-take n as_)
