-- ===== src/Builder/Validate.antt =====
-- The Validate methods of internal/builder/model.go. A message is a constructor with the values that
-- its text quotes.
pub mod Names
use kalua.Prelude.{
  ℕ, ◌≡◌, refl, sym, ap, ◌∙◌, Bool, true, false, not, ◌&&◌, ◌||◌, Option, none, some, List, [], ◌∷◌,
  ◌++◌, if◌then◌else◌, leb, ltb, ◌==◌, elem, arith, Bool-cases, inl, inr,
}
use kalua.Prelude.Int.{ℤ, pos, negsuc}
use kalua.Prelude.Text.{Text, bytes, text_eq, text_beq, text_beq_iff, is_empty}
use kalua.Builder.Model.{Form, Control, CellDef, Document, find_form, first_form}

pub data Message : Type 0 where
  missing_forms : Message
  unsupported_version : ℤ → Message
  active_not_in_forms : Text → Message
  null_form : Message
  duplicate_form : Text → Message
  form_name_required : Message
  form_name_not_identifier : Text → Message
  bad_layout : Text → Message
  bad_align : Text → Message
  empty_cell_id : Message
  cell_not_identifier : Text → Message
  cell_width : Text → ℤ → Message
  duplicate_cell : Text → Message
  null_control : Message
  empty_control_name : Message
  control_not_identifier : Text → Message
  unknown_type : Text → Text → Message
  duplicate_control : Text → Message

-- `if test { msgs = append(msgs, m) }`
abbrev pub when : Bool → Message → List Message
when true m = m ∷ []
when false m = []

abbrev is_letter : ℕ → Bool
is_letter c = (leb 65 c && leb c 90) || ((leb 97 c && leb c 122) || c == b'_')

abbrev is_word : Text → Bool
is_word [] = true
is_word (c ∷ s) = (is_letter c || (leb 48 c && leb c 57)) && is_word s

-- identRe
unfoldable pub is_ident : Text → Bool
is_ident [] = false
is_ident (c ∷ s) = is_letter c && is_word s

unfoldable pub types : List Text
types =
    bytes "label"
    ∷ bytes "textbox"
    ∷ bytes "button"
    ∷ bytes "combo"
    ∷ bytes "list"
    ∷ bytes "table"
    ∷ bytes "checkbox"
    ∷ bytes "radio"
    ∷ bytes "looper"
    ∷ bytes "chart"
    ∷ bytes "image"
    ∷ bytes "tree"
    ∷ bytes "tab"
    ∷ bytes "topbar"
    ∷ bytes "sidebar"
    ∷ bytes "footer"
    ∷ bytes "ai_chat"
    ∷ []

-- `width < 1 || width > 12`
unfoldable pub bad_width : ℤ → Bool
bad_width (negsuc n) = true
bad_width (pos n) = n == 0 || ltb 12 n

-- `d.Version == DocVersion`
abbrev pub current_version : ℤ → Bool
current_version (negsuc n) = false
current_version (pos n) = n == 3

-- The cells; `seen` has the ids before.
unfoldable pub validate_cells : List (Option CellDef) → List Text → List Message
unfolding is_ident bad_width
validate_cells [] seen = []
validate_cells (none ∷ cs) seen = empty_cell_id ∷ validate_cells cs seen
validate_cells (some c ∷ cs) seen =
    let skipped = validate_cells cs seen in
    let rest = validate_cells cs (c.id ∷ seen) in
    if is_empty c.id
    then empty_cell_id ∷ skipped
    else when (not (is_ident c.id)) (cell_not_identifier c.id)
      ++ (when (bad_width c.width) (cell_width c.id c.width)
          ++ (when (elem c.id seen) (duplicate_cell c.id) ++ rest))

module _ {V F : Type 0} where
  unfoldable pub validate_control : Control V F → List Message
  unfolding is_ident types
  validate_control c =
      when (not (is_ident c.name)) (control_not_identifier c.name)
      ++ when (not (elem c.type types)) (unknown_type c.name c.type)

  unfoldable pub validate_controls : List (Option (Control V F)) → List Text → List Message
  unfolding validate_control
  validate_controls [] seen = []
  validate_controls (none ∷ cs) seen = null_control ∷ validate_controls cs seen
  validate_controls (some c ∷ cs) seen =
      let skipped = validate_controls cs seen in
      let rest = validate_controls cs (c.name ∷ seen) in
      if is_empty c.name
      then empty_control_name ∷ skipped
      else validate_control c ++ (when (elem c.name seen) (duplicate_control c.name) ++ rest)

  unfoldable pub validate_form : Form V F → List Message
  unfolding validate_cells validate_controls is_ident
  validate_form f =
      when (is_empty f.name) form_name_required
      ++ (when (not (is_empty f.name) && not (is_ident f.name)) (form_name_not_identifier f.name)
          ++ (when
                (not (is_empty f.layout)
                  && (not (text_beq f.layout (bytes "vertical"))
                      && not (text_beq f.layout (bytes "grid"))))
                (bad_layout f.layout)
              ++ (when
                    (not (is_empty f.align)
                      && (not (text_beq f.align (bytes "left"))
                          && (not (text_beq f.align (bytes "center"))
                              && not (text_beq f.align (bytes "right")))))
                    (bad_align f.align)
                  ++ (validate_cells f.cells [] ++ validate_controls f.controls []))))

  unfoldable pub validate_forms : List (Option (Form V F)) → List Text → List Message
  unfolding validate_form
  validate_forms [] seen = []
  validate_forms (none ∷ fs) seen = null_form ∷ validate_forms fs seen
  validate_forms (some f ∷ fs) seen =
      validate_form f
      ++ (when (elem f.name seen) (duplicate_form f.name) ++ validate_forms fs (f.name ∷ seen))

  abbrev pub held : Option (Form V F) → Bool
  held none = false
  held (some f) = true

  -- Document.Validate; the second argument is the forms.
  abbrev pub validate_all : Document V F → List (Option (Form V F)) → List Message
  validate_all d [] = missing_forms ∷ []
  validate_all d (f ∷ fs) =
      when (not (current_version d.version)) (unsupported_version d.version)
      ++ (when (not (is_empty d.active_form) && not (held (find_form (f ∷ fs) d.active_form)))
            (active_not_in_forms d.active_form)
          ++ validate_forms (f ∷ fs) [])

  unfoldable pub validate : Document V F → List Message
  validate d = validate_all d d.forms

  -- activeForm, on a document that is not nil
  unfoldable pub active_form : Document V F → Option (Form V F)
  unfolding find_form first_form
  active_form d =
      if is_empty d.active_form
      then first_form d.forms
      else elim (find_form d.forms d.active_form) [ none ↦ first_form d.forms | some f ↦ some f ]
