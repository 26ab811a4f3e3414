-- ===== src/Model.antt =====
-- The data model that the components share, of src/model.rs, src/model/selection.rs and src/error.rs.
pub mod Failures
pub mod Errors
pub mod Selection
