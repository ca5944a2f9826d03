-- ===== src/Builder/Tests.antt =====
-- Merges of small documents, and the merge theorems at them.
use kalua.Prelude.{
  ℕ, elem, ◌≡◌, refl, Bool, true, false, Option, none, some, List, [], ◌∷◌, map, get_elem?,
}
use kalua.Prelude.Int.{pos}
use kalua.Prelude.Text.{Text, bytes, text_eq}
use kalua.Prelude.Dict.{lookup, insert}
use kalua.Builder.Model.{CellDef, Control, Form, Document, find_form}
use kalua.Builder.Merge.{merge_control, merge_cells, merge_controls, merge_document}
use kalua.Builder.Validate.{
  null_form, validate, validate_forms, validate_form, validate_cells, validate_controls,
  validate_control, is_ident, types,
}
use kalua.Builder.Validate.Names.{names-validate, AllNamed}
use kalua.Builder.Merge.Forms.{
  HasDistinctNames, overlay, find_form-merge_document, show_options_lost,
}
use kalua.Builder.Merge.Controls.{control_name}
use kalua.Builder.Merge.Positions.{get_elem?-merge_controls}

abbrev button : Text → ℕ → Control ℕ ℕ
button name width = record {
  name = name;
  type = bytes "button";
  opts = (bytes "width", width) ∷ [];
  inline = [];
}

abbrev cell : Text → ℕ → CellDef
cell id width = record { id = id; width = pos width; bg = []; border = none; align = [] }

abbrev form : Text → Bool → List (Option (Control ℕ ℕ)) → Form ℕ ℕ
form name modal controls = record {
  name = name;
  title = [];
  layout = bytes "grid";
  align = [];
  gap = none;
  cells = [];
  controls = controls;
  handlers = [];
  handler_bodies = [];
  notes = [];
  modal = modal;
  gap_x = 5;
  gap_y = 6;
  lines = [];
  indent = [];
  has_show = true;
  orphan_keys = [];
}

abbrev ok_1 : List (Option (Control ℕ ℕ))
ok_1 = some (button (bytes "ok") 1) ∷ some (button (bytes "no") 2) ∷ []

abbrev ok_2 : List (Option (Control ℕ ℕ))
ok_2 = some (button (bytes "yes") 3) ∷ some (button (bytes "ok") 4) ∷ []

abbrev base : Document ℕ ℕ
base = record {
  version = pos 3;
  forms = some (form (bytes "main") true ok_1) ∷ none ∷ some (form (bytes "old") true []) ∷ [];
  active_form = [];
  notes = [];
}

abbrev gen : Document ℕ ℕ
gen = record {
  version = pos 3;
  forms = some (form (bytes "main") true ok_2) ∷ some (form (bytes "new") false []) ∷ [];
  active_form = [];
  notes = [];
}

find_form-merge_document_example :
    find_form (merge_document 0 (λ t. t) base gen).forms (bytes "main")
    ≡ overlay 0 (find_form base.forms (bytes "main")) (find_form gen.forms (bytes "main"))
unfolding find_form
find_form-merge_document_example =
    find_form-merge_document 0 (λ t. t) base gen (bytes "main") refl (refl, (refl, tt))
      (refl, (refl, tt))

show_options_lost_example :
    (m : Form ℕ ℕ) × (find_form (merge_document 0 (λ t. t) base gen).forms (bytes "main") ≡ some m)
    × (m.modal ≡ false)
    × (m.gap_x ≡ 0)
    × (m.gap_y ≡ 0)
    × (m.layout ≡ bytes "grid")
unfolding find_form
show_options_lost_example =
    show_options_lost 0 (λ t. t) base gen (bytes "main") (form (bytes "main") true ok_1)
      (form (bytes "main") true ok_2) refl (refl, (refl, tt)) (refl, (refl, tt)) refl refl

get_elem?-merge_controls_example :
    get_elem? (merge_controls ok_1 ok_2) 0
    ≡ some (some (merge_control (button (bytes "ok") 1) (button (bytes "ok") 4)))
get_elem?-merge_controls_example =
    get_elem?-merge_controls ok_1 ok_2 0 (button (bytes "ok") 1) (refl, (refl, tt))
      (refl, (refl, tt)) refl refl

abbrev row_1 : List (Option CellDef)
row_1 = some (cell (bytes "a") 4) ∷ some (cell (bytes "b") 8) ∷ []

abbrev row_2 : List (Option CellDef)
row_2 = some (cell (bytes "b") 6) ∷ some (cell (bytes "c") 2) ∷ []

row_merged :
    merge_cells row_1 row_2
    ≡ some (cell (bytes "a") 4) ∷ some (cell (bytes "b") 6) ∷ some (cell (bytes "c") 2) ∷ []
unfolding merge_cells lookup insert
row_merged = refl

controls_merged :
    map control_name (merge_controls ok_1 ok_2)
    ≡ some (bytes "ok") ∷ some (bytes "no") ∷ some (bytes "yes") ∷ []
unfolding merge_controls lookup insert
controls_merged = refl

names-validate_example : HasDistinctNames gen.forms × AllNamed gen.forms
unfolding validate_forms validate_form validate_cells validate_controls validate_control is_ident
    types elem
names-validate_example = names-validate gen (unfold validate in refl)

-- The base has a nil form.
base_messages : validate base ≡ null_form ∷ []
unfolding validate validate_forms validate_form validate_cells validate_controls validate_control
    is_ident types elem
base_messages = refl
