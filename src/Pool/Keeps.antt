-- ===== src/Pool/Keeps.antt =====
-- Every step keeps `IsSound`, one lemma for each step.
use kalua.Prelude.{
  ℕ, ◌+◌, ◌%◌, ◌≡◌, refl, ◌⊎◌, inl, inr, Bool, true, false, Option, none, some, List, [], ◌∷◌, ◌++◌,
  nat_eq, Bool-cases, Option-cases, some_inj, none-ne-some, elem, elem-append, elem-get_elem?,
  get_elem?, length, if◌then◌else◌, ◌==◌, arith,
}
use mathlib.Core.Path.{subst}
use kalua.Pool.State.{
  Worker, new_worker, close, Swap, Server, Action, lease, release, release_dec, release_check,
  acquire, free, reload, retire_store, retire_check, unlock, shutdown, wait_idle, re_seed,
  shutdown_close, uint64_mod, old_of, is_free, init, lease_cell, update,
}
use kalua.Pool.Steps.{step, run, lease_found, close_all, build_workers, swap_pool}
use kalua.Pool.Invariant.{IsSound}

abbrev pub IsSoundAll : Server → Type 0
IsSoundAll s = (w : ℕ) → IsSound [] s w

pub Swap-cases : (o : Option Swap) → (o ≡ none) ⊎ (is_free o ≡ false)
Swap-cases none = inl refl
Swap-cases (some x) = inr refl

guarded {ℓ} :
    {S : Type ℓ} (b : Bool) (o : Option S) (y : S) → (if b then o else none) ≡ some y → o ≡ some y
guarded true o y e = e
guarded false o y e = cc

-- A lease leaves an empty pool as it is, and takes a worker of any other.
pub lease_cases :
    (s t : Server)
    → step lease s ≡ some t
    → (s ≡ t) ⊎ ((i n : ℕ) × (lease_found (get_elem? s.workers i) n s ≡ some t))
unfolding step
lease_cases s t e =
    let n = (s.next_worker_idx + 1) % uint64_mod in
    let found = lease_found (get_elem? s.workers (n % length s.workers)) n s in
    let leased : (if length s.workers == 0 then some s else found) ≡ some t =
      guarded (is_free s.reloading) _ t e in
    elim (Bool-cases (length s.workers == 0)) [
      | inl p ↦ inl (some_inj (rw p at leased))
      | inr p ↦ inr (n % length s.workers, n, rw p at leased)
    ]

module _ (s t : Server) (w : ℕ) (h : IsSoundAll s) where
  lease_found-IsSound :
      (o : Option ℕ) (n : ℕ)
      → ((v : ℕ) → o ≡ some v → elem v s.workers ≡ true)
      → lease_found o n s ≡ some t
      → IsSound [] t w
  unfolding lease_found lease_cell
  lease_found-IsSound none n m e = cc
  lease_found-IsSound (some v) n m e = ground (arith, h w, h v, m v refl)

  lease-IsSound : step lease s ≡ some t → IsSound [] t w
  lease-IsSound e = elim (lease_cases s t e) [
    | inl p ↦ subst (λ u. IsSound [] u w) p (h w)
    | inr (i, n, p) ↦
        lease_found-IsSound (get_elem? s.workers i) n (λ v. elem-get_elem? s.workers i) p
  ]

  release-IsSound : (v : ℕ) → step (release v) s ≡ some t → IsSound [] t w
  unfolding step
  release-IsSound v e = ground (arith, h w, h v)

  release_dec-IsSound : (v : ℕ) → step (release_dec v) s ≡ some t → IsSound [] t w
  unfolding step
  release_dec-IsSound v e = ground (arith, h w, h v)

  release_check-IsSound : (v : ℕ) → step (release_check v) s ≡ some t → IsSound [] t w
  unfolding step
  release_check-IsSound v e = ground (arith, h w, h v)

  acquire-IsSound : (v : ℕ) → step (acquire v) s ≡ some t → IsSound [] t w
  unfolding step
  acquire-IsSound v e = ground (arith, h w, h v)

  free-IsSound : (v : ℕ) → step (free v) s ≡ some t → IsSound [] t w
  unfolding step
  free-IsSound v e = ground (arith, h w, h v)

  retire_store-IsSound : step retire_store s ≡ some t → IsSound [] t w
  unfolding step elem
  retire_store-IsSound e = ground (arith, h w)

  retire_check-IsSound : step retire_check s ≡ some t → IsSound [] t w
  unfolding step elem
  retire_check-IsSound e = ground (arith, h w)

  unlock-IsSound : step unlock s ≡ some t → IsSound [] t w
  unfolding step elem
  unlock-IsSound e = ground (arith, h w, elem-append w s.retired (old_of s.reloading))

  shutdown-IsSound : step shutdown s ≡ some t → IsSound [] t w
  unfolding step elem
  shutdown-IsSound e = ground (arith, h w, elem-append w s.workers s.retired)

  wait_idle-IsSound : (b : Bool) → step (wait_idle b) s ≡ some t → IsSound [] t w
  unfolding step elem
  wait_idle-IsSound b e = ground (arith, h w)

  re_seed-IsSound : step re_seed s ≡ some t → IsSound [] t w
  unfolding step elem
  re_seed-IsSound e = ground (arith, h w)

  shutdown_close-IsSound : step shutdown_close s ≡ some t → IsSound [] t w
  unfolding step elem
  shutdown_close-IsSound e = ground (arith, h w)

-- What a buildWorkers in progress keeps: it makes fresh workers, and a failure closes them.
pub alloc-IsSound :
    (acc : List ℕ) (s : Server) (w : ℕ)
    → IsSound acc s w
    → IsSound
        (acc ++ s.built ∷ [])
        (record s { cells = update s.cells s.built new_worker; built = s.built + 1 })
        w
unfolding new_worker elem
alloc-IsSound acc s w h = ground (arith, h, elem-append w acc (s.built ∷ []))

pub cells-close_all :
    (ws : List ℕ) (cells : ℕ → Worker) (w : ℕ)
    → close_all ws cells w ≡ (if elem w ws then close (cells w) else cells w)
unfolding close_all elem
cells-close_all [] cells w = refl
cells-close_all (v ∷ ws) cells w =
    ground (arith, cells-close_all ws (update cells v (close (cells v))) w)

close_all-IsSound :
    (acc : List ℕ) (s : Server) (w : ℕ)
    → IsSound acc s w
    → IsSound [] (record s { cells = close_all acc s.cells }) w
unfolding close elem
close_all-IsSound acc s w h = ground (arith, h, cells-close_all acc s.cells w)

swap-IsSound :
    (acc : List ℕ) (s : Server) (w : ℕ)
    → s.reloading ≡ none
    → IsSound acc s w
    → IsSound [] (swap_pool (some acc, s)) w
unfolding swap_pool elem
swap-IsSound acc s w e h = ground (arith, h)

build-IsSound :
    (rs : List Bool) (acc : List ℕ) (s : Server) (w : ℕ)
    → s.reloading ≡ none
    → IsSound acc s w
    → IsSound [] (swap_pool (build_workers rs acc s)) w
unfolding build_workers
build-IsSound [] acc s w e h = swap-IsSound acc s w e h
build-IsSound (false ∷ rs) acc s w e h = unfold swap_pool in close_all-IsSound acc s w h
build-IsSound (true ∷ rs) acc s w e h =
    build-IsSound rs (acc ++ s.built ∷ [])
      (record s { cells = update s.cells s.built new_worker; built = s.built + 1 }) w e
      (alloc-IsSound acc s w h)

pub enabled {ℓ} : {S : Type ℓ} (b : Bool) (x y : S) → (if b then some x else none) ≡ some y → x ≡ y
enabled true x y e = cc
enabled false x y e = cc

reload-IsSound :
    (rs : List Bool) (s t : Server) (w : ℕ)
    → IsSoundAll s
    → step (reload rs) s ≡ some t
    → IsSound [] t w
unfolding step
reload-IsSound rs s t w h e = elim (Swap-cases s.reloading) [
  | inl p ↦ subst (λ u. IsSound [] u w) (enabled _ _ _ e) (build-IsSound rs [] s w p (h w))
  | inr p ↦ ground (arith, p, e)
]

pub step-IsSound : (a : Action) (s t : Server) → IsSoundAll s → step a s ≡ some t → IsSoundAll t
step-IsSound lease s t h e w = lease-IsSound s t w h e
step-IsSound (release v) s t h e w = release-IsSound s t w h v e
step-IsSound (release_dec v) s t h e w = release_dec-IsSound s t w h v e
step-IsSound (release_check v) s t h e w = release_check-IsSound s t w h v e
step-IsSound (acquire v) s t h e w = acquire-IsSound s t w h v e
step-IsSound (free v) s t h e w = free-IsSound s t w h v e
step-IsSound (reload rs) s t h e w = reload-IsSound rs s t w h e
step-IsSound retire_store s t h e w = retire_store-IsSound s t w h e
step-IsSound retire_check s t h e w = retire_check-IsSound s t w h e
step-IsSound unlock s t h e w = unlock-IsSound s t w h e
step-IsSound shutdown s t h e w = shutdown-IsSound s t w h e
step-IsSound (wait_idle b) s t h e w = wait_idle-IsSound s t w h b e
step-IsSound re_seed s t h e w = re_seed-IsSound s t w h e
step-IsSound shutdown_close s t h e w = shutdown_close-IsSound s t w h e

pub run-cons :
    (a : Action) (as_ : List Action) (s u : Server)
    → step a s ≡ some u
    → run (a ∷ as_) s ≡ run as_ u
unfolding run
run-cons a as_ s u e = rw (e, run)

-- A property that every step keeps holds after every schedule.
pub run_induction {ℓ} :
    (P : Server → Type ℓ)
    → ((a : Action) (s t : Server) → P s → step a s ≡ some t → P t)
    → (as_ : List Action) (s t : Server) → P s
    → run as_ s ≡ some t
    → P t
unfolding run
run_induction P keep [] s t h e = subst P (some_inj e) h
run_induction P keep (a ∷ as_) s t h e = elim (Option-cases (step a s)) [
  | inl p ↦ absurd (none-ne-some (rw (p, run) at e))
  | inr (u, p) ↦ run_induction P keep as_ u t (keep a s u h p) (rw (p, run) at e)
]

pub init-IsSound : IsSoundAll init
unfolding elem new_worker
init-IsSound w = ground arith

-- What every schedule from the empty pool leads to.
pub run-IsSound : (as_ : List Action) (s : Server) → run as_ init ≡ some s → IsSoundAll s
run-IsSound as_ s = run_induction IsSoundAll step-IsSound as_ init s init-IsSound
