-- ===== src/Builder.antt =====
-- The documents of the form builder (internal/builder/model.go) and the merge of a generated
-- document into the open one (internal/builder/merge.go).
pub mod Model
pub mod Merge
pub mod Validate
mod Tests
