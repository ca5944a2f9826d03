-- ===== src/Config/Failure.antt =====
-- Where ApplyFlags stops.
use kalua.Prelude.{
  ◌≡◌, refl, sym, ap, ◌∙◌, Bool, true, false, Option, none, some, List, [], ◌∷◌, ◌++◌, inl, inr,
  Bool-cases, some_inj, none-ne-some,
}
use kalua.Prelude.Text.{Text}
use kalua.Prelude.Dict.{Dict}
use kalua.Config.{File}
use kalua.Config.Flags.{Flag, FlagError, after_set, apply_flags}
use kalua.Config.Precedence.{assignments, set_in_turn, apply_flags-turns}

module _ {ℓ} {M : Type ℓ} (put : Text → Text → M → M × Bool) where
  -- The Sets up to the one that the error names are made, and it refuses its text; `m` is the store
  -- before, and `t` the one after.
  abbrev pub Stopped : List (Text × Text) → M → M → FlagError → Type ℓ
  Stopped as_ m t e =
      (before : List (Text × Text)) × (after : List (Text × Text)) × (u : M) × (as_
        ≡ before ++ ((e.flag, e.text) ∷ after))
      × (set_in_turn put before m ≡ (u, none))
      × (put e.flag e.text u ≡ (t, false))

  accepted :
      (name text : Text) (r : M × Bool) (rest : M → M × Option FlagError)
      → r.1 ≡ true
      → after_set put name text r rest ≡ rest r.0
  unfolding after_set
  accepted name text (m, true) rest b = refl
  accepted name text (m, false) rest b = cc

  refused :
      (name text : Text) (r : M × Bool) (rest : M → M × Option FlagError)
      → r.1 ≡ false
      → after_set put name text r rest ≡ (r.0, some (record { flag = name; text = text }))
  unfolding after_set
  refused name text (m, false) rest b = refl
  refused name text (m, true) rest b = cc

  set_in_turn-Stopped :
      (as_ : List (Text × Text)) (m : M) (e : FlagError)
      → (set_in_turn put as_ m).1 ≡ some e
      → Stopped as_ m (set_in_turn put as_ m).0 e
  unfolding set_in_turn
  set_in_turn-Stopped [] m e h = absurd (none-ne-some h)
  set_in_turn-Stopped ((name, text) ∷ as_) m e h = elim (Bool-cases (put name text m).1) [
    | inl b ↦
        let go_on = accepted name text (put name text m) (set_in_turn put as_) b in
        let (before, after, u, p, q, r) =
          set_in_turn-Stopped as_ (put name text m).0 e (sym (ap (λ x. x.1) go_on) ∙ h) in
        (
          (name, text) ∷ before,
          after,
          u,
          ap (λ xs. (name, text) ∷ xs) p,
          accepted name text (put name text m) (set_in_turn put before) b ∙ q,
          r ∙ ap (λ x. (x.0, false)) (sym go_on),
        )
    | inr b ↦
        let stop = refused name text (put name text m) (set_in_turn put as_) b in
        let same : record { flag = name; text = text } ≡ e =
          some_inj (sym (ap (λ x. x.1) stop) ∙ h) in
        (
          [],
          as_,
          m,
          ap (λ (x : FlagError). (x.flag, x.text) ∷ as_) same,
          refl,
          ap (λ (x : FlagError). put x.flag x.text m) (sym same)
              ∙ ap (λ c. ((put name text m).0, c)) b
              ∙ ap (λ x. (x.0, false)) (sym stop),
        )
  ]

  -- An error of ApplyFlags is of the first of the Sets that the file asks for that refuses its text: the
  -- ones before it take theirs, none after it is made, and the values are left as it leaves them.
  pub apply_flags-Stopped :
      (f : File) (section : Text) (aliases : Dict Text (List Text)) (fls : List Flag) (m : M)
      (e : FlagError)
      → (apply_flags put f section aliases fls m).1 ≡ some e
      → Stopped (assignments f section aliases fls) m (apply_flags put f section aliases fls m).0 e
  apply_flags-Stopped f section aliases fls m e h =
      let same = apply_flags-turns put f section aliases fls m in
      rw same
        (set_in_turn-Stopped (assignments f section aliases fls) m e (sym (ap (λ x. x.1) same) ∙ h))
