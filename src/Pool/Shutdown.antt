-- ===== src/Pool/Shutdown.antt =====
-- What a failed reload and a shutdown leave of the pool.
use kalua.Prelude.{
  ℕ, ◌+◌, ◌≤◌, ◌<◌, ◌≡◌, refl, sym, ◌∙◌, ◌⊎◌, inl, inr, Bool, true, false, ◌||◌, Option, none, some,
  List, [], ◌∷◌, ◌++◌, nat_eq, elem, elem-append, elem-nil, ltb, leb, ◌&&◌, ◌==◌, arith,
}
use native.Mathlib.Decide.{dec_lt}
use mathlib.Core.Path.{subst}
use kalua.Pool.State.{
  Server, Action, reload, shutdown, wait_idle, shutdown_close, init, update, new_worker, close,
}
use kalua.Pool.Steps.{step, run, build_workers, swap_pool}
use kalua.Pool.Keeps.{run-IsSound, run-cons, cells-close_all, Swap-cases, enabled}

-- shutdown's loop over its workers, whose waits all time out.
abbrev pub close_out : List ℕ → List Action
close_out [] = []
close_out (w ∷ ws) = wait_idle true ∷ shutdown_close ∷ close_out ws

-- What a shutdown has still to do.
abbrev IsClosing : Server → ℕ → Type 0
IsClosing s w = ((s.cells w).closed || elem w s.closing) ≡ true

close_out_closes :
    (ws : List ℕ) (s : Server)
    → s.closing ≡ ws
    → s.waited ≡ false
    → ((w : ℕ) → s.seeding w ≡ 0)
    → (t : Server) × (run (close_out ws) s ≡ some t)
      × (t.built ≡ s.built)
      × ((w : ℕ) → IsClosing s w → (t.cells w).closed ≡ true)
unfolding run elem
close_out_closes [] s e n z = (s, refl, refl, λ w h. ground (arith, h, e))
close_out_closes (w ∷ ws) s e n z =
    let s1 = record s { waited = true } in
    let s2 = record s {
      cells = update s.cells w (close (s.cells w));
      closing = ws;
      waited = false;
    } in
    let (t, r, b, done) = close_out_closes ws s2 refl refl z in
    (
      t,
      run-cons (wait_idle true) (shutdown_close ∷ close_out ws) s s1 (unfold step in rw (e, n, z w))
          ∙ run-cons shutdown_close (close_out ws) s1 s2 (unfold step in rw e)
          ∙ r,
      b,
      λ v h. done v (unfold close in ground (arith, h, e)),
    )

-- From every state that a schedule reaches, with no reload in progress and no shutdown begun, a
-- shutdown can run to its end even if every wait for an idle worker times out, and then a worker that
-- was ever built is closed.
pub shutdown_closes :
    (as_ : List Action) (s : Server) (w : ℕ)
    → run as_ init ≡ some s
    → s.reloading ≡ none
    → s.stopped ≡ false
    → w < s.built
    → (t : Server) × (run (shutdown ∷ close_out (s.workers ++ s.retired)) s ≡ some t)
      × ((t.cells w).closed ≡ true)
shutdown_closes as_ s w e r n h =
    let s1 = record s {
      workers = [];
      retired = [];
      closing = s.workers ++ s.retired;
      waited = false;
      stopped = true;
    } in
    let begun : step shutdown s ≡ some s1 = unfold step in rw (r, n) in
    let (t, q, b, done) =
      close_out_closes (s.workers ++ s.retired) s1 refl refl
        (λ v. (run-IsSound as_ s e v).unseeded n) in
    (t, run-cons shutdown _ s s1 begun ∙ q, done w still)
  where
    still : ((s.cells w).closed || elem w (s.workers ++ s.retired)) ≡ true
    still = ground (
      arith,
      (run-IsSound as_ s e w).owned h,
      (run-IsSound as_ s e w).idle n,
      elem-append w s.workers s.retired,
      elem-nil w,
      r,
    )

-- Whether every NewWorker of a buildWorkers succeeds.
abbrev pub all_true : List Bool → Bool
all_true [] = true
all_true (b ∷ bs) = b && all_true bs

elem-snoc : (w v : ℕ) (acc : List ℕ) → elem w (acc ++ v ∷ []) ≡ (elem w acc || v == w)
unfolding elem
elem-snoc w v [] = ground arith
elem-snoc w v (x ∷ acc) = ground (arith, elem-snoc w v acc)

swap_none : (o : Option (List ℕ)) (s : Server) → o ≡ none → swap_pool (o, s) ≡ s
unfolding swap_pool
swap_none none s e = refl
swap_none (some ws) s e = cc

module _ (base : ℕ) where
  untouched :
      (w : ℕ) (s : Server)
      → w < base
      → base ≤ s.built
      → update s.cells s.built new_worker w ≡ s.cells w
  untouched w s h l = ground arith

  -- `base` is where the buildWorkers began.
  build_failed :
      (rs : List Bool) (acc : List ℕ) (s : Server)
      → base ≤ s.built
      → ((w : ℕ) → elem w acc ≡ (leb base w && ltb w s.built))
      → all_true rs ≡ false
      → let (o, t) = build_workers rs acc s in
        (o ≡ none)
        × (t.workers ≡ s.workers)
        × (t.next_worker_idx ≡ s.next_worker_idx)
        × (t.reloading ≡ s.reloading)
        × ((w : ℕ) → w < base → t.cells w ≡ s.cells w)
        × ((w : ℕ) → base ≤ w → w < t.built → (t.cells w).closed ≡ true)
  unfolding build_workers
  build_failed [] acc s l m f = cc
  build_failed (false ∷ rs) acc s l m f = (
    refl,
    refl,
    refl,
    refl,
    λ w h. ground (arith, cells-close_all acc s.cells w, m w),
    λ w h k. unfold close in ground (arith, cells-close_all acc s.cells w, m w),
  )
  build_failed (true ∷ rs) acc s l m f =
      let s1 = record s { cells = update s.cells s.built new_worker; built = s.built + 1 } in
      let r =
        build_failed rs (acc ++ s.built ∷ []) s1 (omega arith)
          (λ w. ground (arith, m w, elem-snoc w s.built acc)) f in
      (r.0, r.1, r.2, r.3, λ w h. r.4 w h ∙ untouched w s h l, r.5)

abbrev Failed : Server → ℕ → Server → Type 0
Failed s w t =
    (t.workers ≡ s.workers)
    × (t.next_worker_idx ≡ s.next_worker_idx)
    × (t.reloading ≡ none)
    × (w < s.built → t.cells w ≡ s.cells w)
    × (s.built ≤ w → w < t.built → (t.cells w).closed ≡ true)

Failed-parts :
    (s t : Server) (w : ℕ)
    → w < t.built
    → Failed s w t
    → (t.workers ≡ s.workers)
      × (t.next_worker_idx ≡ s.next_worker_idx)
      × (t.reloading ≡ none)
      × ((w < s.built) × (t.cells w ≡ s.cells w) ⊎ (s.built ≤ w) × ((t.cells w).closed ≡ true))
Failed-parts s t w h f = elim (dec_lt w s.built) [
  | yes p ↦ (f.0, f.1, f.2, inl (p, f.3 p))
  | no p ↦ (f.0, f.1, f.2, inr (omega arith, f.4 (omega arith) h))
]

-- A reload whose buildWorkers fails, because some NewWorker does, changes neither the pool nor its
-- cursor, and begins no swap; a worker that existed is as it was, and one that it had built is closed.
pub failed_reload :
    (rs : List Bool) (s t : Server) (w : ℕ)
    → all_true rs ≡ false
    → step (reload rs) s ≡ some t
    → w < t.built
    → (t.workers ≡ s.workers)
      × (t.next_worker_idx ≡ s.next_worker_idx)
      × (t.reloading ≡ none)
      × ((w < s.built) × (t.cells w ≡ s.cells w) ⊎ (s.built ≤ w) × ((t.cells w).closed ≡ true))
unfolding step
failed_reload rs s t w f e h = elim (Swap-cases s.reloading) [
  | inl p ↦
      let b = build_failed s.built rs [] s (omega arith) (λ v. ground (arith, elem-nil v)) f in
      let q : build.1 ≡ t = sym (swap_none build.0 build.1 b.0) ∙ enabled _ _ _ e in
      Failed-parts s t w h (subst (Failed s w) q (b.1, b.2, b.3 ∙ p, b.4 w, b.5 w))
  | inr p ↦ ground (arith, p, e)
]
  where
    build : Option (List ℕ) × Server
    build = build_workers rs [] s
