-- ===== src/Tests/Units.antt =====
-- The unit tests of src/, run on the models.
pub mod Registry
pub mod Services
