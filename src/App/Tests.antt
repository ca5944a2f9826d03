-- ===== src/App/Tests.antt =====
-- A main that sleeps and shows a form, and the claims on it.
use kalua.Prelude.{ℕ, zero, suc, ◌+◌, ◌≡◌, refl, Bool, true, false, none, some, [], ◌∷◌, ◌↔◌}
use kalua.App.{
  App, ResumeState, yielded, sleep, form_show, finished, suspended, block, request_quit,
  resume_main, run_main,
}
use kalua.App.Loop.{Runs, run_main-Runs_iff}

-- The state counts the resumes: the first yields for a sleep, the second to show a form.
abbrev at_turn : ℕ → App ℕ → App ℕ × ResumeState
at_turn zero a = (block (record a { state = 1 }) (record { kind = sleep; form = [] }), yielded)
at_turn (suc n) a =
    (block (record a { state = 2 + n }) (record { kind = form_show; form = 109 ∷ [] }), yielded)

abbrev sample : App ℕ → Bool → App ℕ × ResumeState
sample a first = at_turn a.state a

abbrev begin : App ℕ
begin = record { state = 0; quitting = false; pending = none; suspended_form = [] }

abbrev shown : App ℕ
shown = record { state = 2; quitting = false; pending = none; suspended_form = 109 ∷ [] }

shows : run_main sample 2 true begin ≡ (shown, suspended)
unfolding run_main block
shows = refl

-- A quit that a script asks for ends Run, also where the script then waits.
quits : run_main (λ a first. at_turn a.state (request_quit a)) 1 true begin ≡ (
  record {
    state = 1;
    quitting = true;
    pending = some (record { kind = sleep; form = [] });
    suspended_form = [];
  },
  finished,
)
unfolding run_main block request_quit
quits = refl

closed : (resume_main shown).suspended_form ≡ []
unfolding resume_main
closed = refl

run_main-Runs_iff_example : Runs sample true begin shown suspended ↔ (
    (fuel : ℕ) × ((more : ℕ) → run_main sample (suc fuel + more) true begin ≡ (shown, suspended)))
run_main-Runs_iff_example = run_main-Runs_iff sample true begin shown suspended (λ f. cc)
