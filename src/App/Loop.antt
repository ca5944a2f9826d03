-- ===== src/App/Loop.antt =====
-- The rounds of Run, and the fuel that they need.
use mathlib.Core.Path.{subst}
use kalua.Prelude.{
  ℕ, zero, suc, ◌+◌, ◌≡◌, refl, sym, ap, ◌∙◌, ◌↔◌, ◌⊎◌, inl, inr, Bool, false, arith,
}
use kalua.App.Rounds.{Round, after_main-Round, Round-after_main}
use kalua.App.{
  App, ResumeState, RunResult, out_of_fuel, Next, stop, again, after_main, next_round, run_main,
}

-- The rounds of the loop up to its return: each but the last ends with a yield that it goes on from.
pub data Runs {R : Type 0} (resume : App R → Bool → App R × ResumeState)
    : Bool → App R → App R → RunResult → Type 0 where
  last_round :
      (first : Bool) (a b : App R) (out : RunResult)
      → Round (resume a first) (stop b out)
      → Runs resume first a b out
  one_more :
      (first : Bool) (a b c : App R) (out : RunResult)
      → Round (resume a first) (again b)
      → Runs resume false b c out
      → Runs resume first a c out

Next-cases :
    {R : Type 0} (n : Next R)
    → ((b : App R) × (out : RunResult) × (n ≡ stop b out)) ⊎ ((b : App R) × (n ≡ again b))
Next-cases (stop b out) = inl (b, out, refl)
Next-cases (again b) = inr (b, refl)

module _ {R : Type 0} (resume : App R → Bool → App R × ResumeState) where
  run_main-stop :
      (fuel : ℕ) (first : Bool) (a b : App R) (out : RunResult)
      → after_main (resume a first) ≡ stop b out
      → run_main resume (suc fuel) first a ≡ (b, out)
  unfolding run_main
  run_main-stop fuel first a b out e = ap (next_round (λ c. run_main resume fuel false c)) e

  run_main-again :
      (fuel : ℕ) (first : Bool) (a b : App R)
      → after_main (resume a first) ≡ again b
      → run_main resume (suc fuel) first a ≡ run_main resume fuel false b
  unfolding run_main
  run_main-again fuel first a b e = ap (next_round (λ c. run_main resume fuel false c)) e

  -- Where the rounds of Run come to an end, there is an amount of fuel with which, and with any more,
  -- it returns what the last round does.
  pub Runs-run_main :
      (first : Bool) (a b : App R) (out : RunResult)
      → Runs resume first a b out
      → (fuel : ℕ) × ((more : ℕ) → run_main resume (suc fuel + more) first a ≡ (b, out))
  Runs-run_main _ _ _ _ (last_round first a b out e) = (
    0,
    λ more.
        let one : 1 + more ≡ suc more = omega arith in
        rw one (run_main-stop more first a b out (Round-after_main _ _ e)),
  )
  Runs-run_main _ _ _ _ (one_more first a b c out e r) =
      let (fuel, f) = Runs-run_main false b c out r in
      (
        suc fuel,
        λ more.
            let next : suc (suc fuel) + more ≡ suc (suc fuel + more) = omega arith in
            rw next (run_main-again (suc fuel + more) first a b (Round-after_main _ _ e) ∙ f more),
      )

  run_main-Runs :
      (fuel : ℕ) (first : Bool) (a b : App R) (out : RunResult)
      → run_main resume fuel first a ≡ (b, out)
      → (out ≡ out_of_fuel → ⊥)
      → Runs resume first a b out
  unfolding run_main
  run_main-Runs zero first a b out e n = absurd (n (sym (ap (λ (x : App R × RunResult). x.1) e)))
  run_main-Runs (suc fuel) first a b out e n = elim (Next-cases (after_main (resume a first))) [
    | inl (c, o, f) ↦
        let same = sym (run_main-stop fuel first a c o f) ∙ e in
        last_round first a b out (
          subst (λ n. Round (resume a first) n)
            (f ∙ ap (λ (x : App R × RunResult). stop x.0 x.1) same)
            (after_main-Round (resume a first)))
    | inr (c, f) ↦
        one_more first a c b out
          (subst (λ n. Round (resume a first) n) f (after_main-Round (resume a first)))
          (run_main-Runs fuel false c b out (sym (run_main-again fuel first a c f) ∙ e) n)
  ]

  -- For a result other than the end of the fuel, the loop of Run returns it with some number of rounds, and
  -- with any larger one, exactly if rounds, as Round describes them, lead to it.
  pub run_main-Runs_iff :
      (first : Bool) (a b : App R) (out : RunResult)
      → (out ≡ out_of_fuel → ⊥)
      → Runs resume first a b out
        ↔ ((fuel : ℕ) × ((more : ℕ) → run_main resume (suc fuel + more) first a ≡ (b, out)))
  run_main-Runs_iff first a b out n =
      (Runs-run_main first a b out, λ (fuel, f). run_main-Runs (suc fuel + 0) first a b out (f 0) n)
