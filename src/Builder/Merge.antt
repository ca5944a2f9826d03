-- ===== src/Builder/Merge.antt =====
-- internal/builder/merge.go: a generated document is laid over the open one. The properties are in
-- the modules below.
pub mod Maps
pub mod Agree
pub mod Forms
pub mod Controls
pub mod Positions
pub mod Cells
use kalua.Prelude.{
  ℕ, ◌≡◌, refl, Bool, true, false, Option, none, some, List, [], ◌∷◌, ◌++◌, map, length, get_elem?,
  set, not, if◌then◌else◌, elem,
}
use kalua.Prelude.Int.{ℤ, pos}
use kalua.Prelude.Text.{Text, bytes, text_eq, text_beq, is_empty}
use kalua.Prelude.Dict.{Dict, lookup, insert, insert_all}
use kalua.Builder.Model.{CellDef, Control, Form, Document, find_form, first_form}

abbrev pub is_nil {ℓ} : {A : Type ℓ} → List A → Bool
is_nil [] = true
is_nil (x ∷ xs) = false

-- mergeStrings and mergeStringSlices, which differ in the type of the values.
unfoldable pub merge_strings : {A : Type 0} → Dict Text A → Dict Text A → Dict Text A
merge_strings base gen =
    if is_nil gen then base else if is_nil base then gen else insert_all gen base

abbrev pub doc_version : ℤ
doc_version = pos 3

abbrev pub merge_message : Text
merge_message = bytes "Merged AI changes into the existing form (no controls removed)."

-- mergeCells: the order of the ids, and the definition that each has.
unfoldable pub cells_base :
    List (Option CellDef) → List Text → Dict Text CellDef → List Text × Dict Text CellDef
cells_base [] order by_id = (order, by_id)
cells_base (none ∷ cs) order by_id = cells_base cs order by_id
cells_base (some c ∷ cs) order by_id =
    if is_empty c.id
    then cells_base cs order by_id
    else cells_base cs (elim (lookup c.id by_id) [ none ↦ order ++ c.id ∷ [] | some d ↦ order ])
        (insert c.id c by_id)

unfoldable pub merge_cells : List (Option CellDef) → List (Option CellDef) → List (Option CellDef)
unfolding cells_base
merge_cells base gen =
    let (order, by_id) = cells_base base [] [] in
    let (order', by_id') = cells_base gen order by_id in map (λ id. lookup id by_id') order'

module _ {V F : Type 0} where
  unfoldable pub merge_control : Control V F → Control V F → Control V F
  merge_control base gen = record {
    name = gen.name;
    type = if is_empty gen.type then base.type else gen.type;
    opts = insert_all gen.opts (insert_all base.opts []);
    inline = insert_all gen.inline (insert_all base.inline []);
  }

  -- mergeControls: its first loop gives the controls of the base and the last index of each name.
  unfoldable pub controls_base :
      List (Option (Control V F))
      → List (Option (Control V F))
      → Dict Text ℕ
      → List (Option (Control V F)) × Dict Text ℕ
  controls_base [] out index = (out, index)
  controls_base (none ∷ cs) out index = controls_base cs (out ++ none ∷ []) index
  controls_base (some c ∷ cs) out index =
      controls_base cs (out ++ some c ∷ []) (insert c.name (length out) index)

  -- out[i], where `index` gives i; a `nil` there counts as not found.
  unfoldable pub find_control : List (Option (Control V F)) → Option ℕ → Option (ℕ × Control V F)
  find_control out none = none
  find_control out (some i) = elim (get_elem? out i) [
    | none ↦ none
    | some o ↦ elim o [ none ↦ none | some c ↦ some (i, c) ]
  ]

  -- One turn of its second loop.
  unfoldable pub merge_one :
      Control V F
      → List (Option (Control V F)) × Dict Text ℕ
      → List (Option (Control V F)) × Dict Text ℕ
  unfolding find_control merge_control
  merge_one c (out, index) =
      if is_empty c.name then (out, index) else elim (find_control out (lookup c.name index)) [
        | some (i, b) ↦ (set out i (some (merge_control b c)), index)
        | none ↦ (out ++ some c ∷ [], insert c.name (length out) index)
      ]

  unfoldable pub controls_gen :
      List (Option (Control V F))
      → List (Option (Control V F)) × Dict Text ℕ
      → List (Option (Control V F)) × Dict Text ℕ
  unfolding merge_one
  controls_gen [] s = s
  controls_gen (none ∷ cs) s = controls_gen cs s
  controls_gen (some c ∷ cs) s = controls_gen cs (merge_one c s)

  unfoldable pub merge_controls :
      List (Option (Control V F)) → List (Option (Control V F)) → List (Option (Control V F))
  unfolding controls_base controls_gen
  merge_controls base gen = (controls_gen gen (controls_base base [] [])).0

  -- mergeForm; `zero` is the float 0, which fields that it leaves out have.
  unfoldable pub merge_form : F → Form V F → Form V F → Form V F
  unfolding merge_cells merge_controls merge_strings
  merge_form zero_float base gen = record {
    name = base.name;
    title = if is_empty gen.title then base.title else gen.title;
    layout = if is_empty gen.layout then base.layout else gen.layout;
    align = if is_empty gen.align then base.align else gen.align;
    gap = elim gen.gap [ none ↦ base.gap | some g ↦ some g ];
    cells = merge_cells base.cells gen.cells;
    controls = merge_controls base.controls gen.controls;
    handlers = merge_strings base.handlers gen.handlers;
    handler_bodies = merge_strings base.handler_bodies gen.handler_bodies;
    notes = (base.notes ++ merge_message ∷ []) ++ gen.notes;
    modal = false;
    gap_x = zero_float;
    gap_y = zero_float;
    lines = base.lines;
    indent = base.indent;
    has_show = base.has_show;
    orphan_keys = base.orphan_keys;
  }

  -- The first loop of MergeDocument.
  unfoldable pub forms_base :
      List (Option (Form V F)) → Dict Text (Form V F) → List Text → Dict Text (Form V F) × List Text
  forms_base [] by_name order = (by_name, order)
  forms_base (none ∷ fs) by_name order = forms_base fs by_name order
  forms_base (some f ∷ fs) by_name order =
      if is_empty f.name
      then forms_base fs by_name order
      else forms_base fs (insert f.name f by_name) (order ++ f.name ∷ [])

  -- Its second loop.
  unfoldable pub forms_gen :
      F
      → List (Option (Form V F))
      → Dict Text (Form V F)
      → List Text
      → Dict Text (Form V F) × List Text
  unfolding merge_form
  forms_gen z [] by_name order = (by_name, order)
  forms_gen z (none ∷ fs) by_name order = forms_gen z fs by_name order
  forms_gen z (some g ∷ fs) by_name order =
      if is_empty g.name then forms_gen z fs by_name order else elim (lookup g.name by_name) [
        | some b ↦ forms_gen z fs (insert g.name (merge_form z b g) by_name) order
        | none ↦ forms_gen z fs (insert g.name g by_name) (order ++ g.name ∷ [])
      ]

  -- The notes of forms that are new; `quote` is the verb %q of fmt.
  unfoldable pub added_notes :
      (Text → Text) → List (Option (Form V F)) → List (Option (Form V F)) → List Text
  unfolding find_form
  added_notes quote base [] = []
  added_notes quote base (none ∷ gs) = added_notes quote base gs
  added_notes quote base (some g ∷ gs) =
      let rest = added_notes quote base gs in
      if is_empty g.name then rest else elim (find_form base g.name) [
        | none ↦ (bytes "Added form " ++ (quote g.name ++ bytes " from the AI result.")) ∷ rest
        | some b ↦ rest
      ]

  abbrev name_or_empty : Option (Form V F) → Text
  name_or_empty none = []
  name_or_empty (some f) = f.name

  -- MergeDocument of two documents that are not `nil`.
  unfoldable pub merge_document : F → (Text → Text) → Document V F → Document V F → Document V F
  unfolding forms_base forms_gen added_notes first_form
  merge_document z quote base gen =
      let (by_name, order) = forms_base base.forms [] [] in
      let (by_name', order') = forms_gen z gen.forms by_name order in
      let forms = map (λ n. lookup n by_name') order' in
      record {
        version = doc_version;
        forms = forms;
        active_form =
            if is_empty base.active_form
            then name_or_empty (first_form forms)
            else base.active_form;
        notes = added_notes quote base.forms gen.forms;
      }
