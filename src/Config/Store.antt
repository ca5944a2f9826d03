-- ===== src/Config/Store.antt =====
-- What the two changes that the parser makes to a file do to the values of a key.
use kalua.Prelude.{
  ◌≡◌, refl, sym, ◌&&◌, List, [], ◌∷◌, ◌++◌, if◌then◌else◌, append-nil, nat_eq, Bool-cases,
  Option-cases, inl, inr, none,
}
use kalua.Prelude.Text.{Text, text_eq, text_beq, text_beq_iff}
use kalua.Prelude.Dict.{Dict, lookup, insert, lookup-insert}
use kalua.Config.{File, norm, or_nil, add_value, open_section, values}
use kalua.Config.Line.{same}

nested :
    (m : Dict Text (Dict Text (List Text))) (a b a' b' v : Text)
    → or_nil (
        lookup b' (
          or_nil (
            lookup a' (
              insert a
                (insert b
                  (or_nil (lookup b (or_nil (lookup a m))) ++ (v ∷ []))
                  (or_nil (lookup a m)))
                m))))
      ≡ or_nil (lookup b' (or_nil (lookup a' m)))
        ++ (if text_beq a a' && text_beq b b' then v ∷ [] else [])
nested m a b a' b' v =
    let sec = or_nil (lookup a m) in
    let vs = or_nil (lookup b sec) ++ (v ∷ []) in
    let outer = lookup-insert a a' (insert b vs sec) m in
    elim (Bool-cases (text_beq a a')) [
      | inr p ↦ rw (outer, p) (sym (append-nil (or_nil (lookup b' (or_nil (lookup a' m))))))
      | inl p ↦
          let aa = (text_beq_iff a a').0 p in
          elim (Bool-cases (text_beq b b')) [
            | inl q ↦
                let bb = (text_beq_iff b b').0 q in
                rw (outer, p, lookup-insert b b' vs sec, q, ← aa, ← bb) refl
            | inr q ↦
                rw (outer, p, lookup-insert b b' vs sec, q, ← aa)
                  (sym (append-nil (or_nil (lookup b' sec))))
          ]
    ]

-- A value is appended to the values of its key in its section, and to no others.
pub values-add_value :
    (f : File) (current k v section key : Text)
    → values (add_value f current k v) section key
      ≡ values f section key ++ (if same current section && same k key then v ∷ [] else [])
unfolding values add_value
values-add_value f current k v section key =
    nested f.sections (norm current) (norm k) (norm section) (norm key) v

opened :
    (m : Dict Text (Dict Text (List Text))) (a a' b' : Text)
    → lookup a m ≡ none
    → or_nil (lookup b' (or_nil (lookup a' (insert a [] m))))
      ≡ or_nil (lookup b' (or_nil (lookup a' m)))
opened m a a' b' e = elim (Bool-cases (text_beq a a')) [
  | inl p ↦ rw (lookup-insert a a' [] m, p, ← (text_beq_iff a a').0 p, e) refl
  | inr p ↦ rw (lookup-insert a a' [] m, p) refl
]

pub values-open_section :
    (f : File) (name section key : Text)
    → values (open_section f name) section key ≡ values f section key
unfolding values open_section
values-open_section f name section key = elim (Option-cases (lookup (norm name) f.sections)) [
  | inl e ↦ rw (e, open_section) (opened f.sections (norm name) (norm section) (norm key) e)
  | inr (sec, e) ↦ rw (e, open_section) refl
]
