-- ===== src/Pool/Leases.antt =====
-- What the worker pool promises: one handler at a time, no leak of a Lua state, no use of a closed one.
use kalua.Prelude.{
  ℕ, suc, ◌+◌, ◌<◌, ◌≡◌, refl, ◌⊎◌, inl, inr, Bool, true, false, Option, none, some, List, [], ◌∷◌,
  ◌++◌, All, nat_eq, Option-cases, some_inj, none-ne-some, elem, get_elem?, elem-get_elem?, take,
  arith,
}
use mathlib.Core.Path.{subst}
use kalua.Pool.State.{
  update, new_worker, Server, Action, lease, release, release_check, reload, int32_mod, init,
}
use kalua.Pool.Steps.{step, run, build_workers, swap_pool, lease_found}
use kalua.Pool.Invariant.{IsSound}
use kalua.Pool.Keeps.{
  IsSoundAll, init-IsSound, step-IsSound, run-IsSound, cells-close_all, alloc-IsSound, Swap-cases,
  enabled, lease_cases,
}

-- In every schedule, once a worker is retired, its leases have ended, no call of release is between
-- its two operations and no reload is in progress, the worker's Lua state is closed.
pub retired_closed :
    (as_ : List Action) (s : Server) (w : ℕ)
    → run as_ init ≡ some s
    → (s.cells w).retired ≡ true
    → s.leases w ≡ 0
    → s.releasing w ≡ 0
    → s.reloading ≡ none
    → (s.cells w).closed ≡ true
retired_closed as_ s w e r l p q = ground (arith, run-IsSound as_ s e w)

-- The actions of a schedule in which no thread is preempted between the two operations of release.
abbrev pub IsWhole : Action → Type 0
IsWhole (release_check w) = ⊥
IsWhole _ = Unit

abbrev IsSafe : Server → ℕ → Type 0
IsSafe s w = (s.cells w).closed ≡ true → (s.stopped ≡ true) ⊎ (s.leases w ≡ 0)

lease_found-IsSafe :
    (o : Option ℕ) (n : ℕ) (s t : Server) (w : ℕ)
    → IsSoundAll s
    → ((v : ℕ) → o ≡ some v → elem v s.workers ≡ true)
    → IsSafe s w
    → lease_found o n s ≡ some t
    → IsSafe t w
unfolding lease_found
lease_found-IsSafe none n s t w i m h e = cc
lease_found-IsSafe (some v) n s t w i m h e = ground (arith, (i v).live (m v refl))

lease-IsSafe :
    (s t : Server) (w : ℕ) → IsSoundAll s → IsSafe s w → step lease s ≡ some t → IsSafe t w
lease-IsSafe s t w i h e = elim (lease_cases s t e) [
  | inl p ↦ subst (λ u. IsSafe u w) p h
  | inr (j, n, p) ↦
      lease_found-IsSafe (get_elem? s.workers j) n s t w i (λ v. elem-get_elem? s.workers j) h p
]

build-IsSafe :
    (rs : List Bool) (acc : List ℕ) (s : Server) (w : ℕ)
    → IsSound acc s w
    → IsSafe s w
    → IsSafe (swap_pool (build_workers rs acc s)) w
unfolding build_workers swap_pool
build-IsSafe [] acc s w i h = h
build-IsSafe (false ∷ rs) acc s w i h = ground (arith, i.pending, cells-close_all acc s.cells w)
build-IsSafe (true ∷ rs) acc s w i h =
    build-IsSafe rs (acc ++ s.built ∷ [])
      (record s { cells = update s.cells s.built new_worker; built = s.built + 1 }) w
      (alloc-IsSound acc s w i) (unfold new_worker in ground arith)

step-IsSafe :
    (a : Action) (s t : Server) (w : ℕ)
    → IsWhole a
    → IsSoundAll s
    → s.leases w < int32_mod
    → IsSafe s w
    → step a s ≡ some t
    → IsSafe t w
unfolding step elem
step-IsSafe lease s t w o i b h e = lease-IsSafe s t w i h e
step-IsSafe (release v) s t w o i b h e = ground (arith, i w, i v)
step-IsSafe (release_check v) s t w o i b h e = absurd o
step-IsSafe (reload rs) s t w o i b h e = elim (Swap-cases s.reloading) [
  | inl p ↦ subst (λ u. IsSafe u w) (enabled _ _ _ e) (build-IsSafe rs [] s w (i w) h)
  | inr p ↦ ground (arith, p, e)
]
step-IsSafe _ s t w o i b h e = ground (arith, i w)

run-IsSafe :
    (as_ : List Action) (s t : Server) (w : ℕ)
    → All IsWhole as_
    → IsSoundAll s
    → IsSafe s w
    → ((n : ℕ) (u : Server) → run (take n as_) s ≡ some u → u.leases w < int32_mod)
    → run as_ s ≡ some t
    → IsSafe t w
unfolding run
run-IsSafe [] s t w o i h b e = subst (λ u. IsSafe u w) (some_inj e) h
run-IsSafe (a ∷ as_) s t w o i h b e = elim (Option-cases (step a s)) [
  | inl p ↦ absurd (none-ne-some (rw (p, run) at e))
  | inr (u, p) ↦
      run-IsSafe as_ u t w o.1 (step-IsSound a s u i p) (step-IsSafe a s u w o.0 i (b 0 s refl) h p)
        (λ n x q. b (suc n) x (rw (p, run) q)) (rw (p, run) at e)
]

-- In every schedule in which no thread is preempted between the two operations of release, and in
-- which fewer than 2^32 leases of the worker are out at each step, a worker whose Lua state is closed
-- has no lease out, unless shutdown has begun.
pub closed_unleased :
    (as_ : List Action) (s : Server) (w : ℕ)
    → All IsWhole as_
    → run as_ init ≡ some s
    → ((n : ℕ) (u : Server) → run (take n as_) init ≡ some u → u.leases w < int32_mod)
    → s.stopped ≡ false
    → (s.cells w).closed ≡ true
    → s.leases w ≡ 0
closed_unleased as_ s w o e b n c =
    ground
      (arith, run-IsSafe as_ init s w o init-IsSound (λ p. unfold new_worker in ground arith) b e c)
