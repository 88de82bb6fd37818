-- ===== src/Patch.antt =====
-- The validation of a provider's patch, src/run/provider-patch-validator.ts. Text is a list of UTF-16
-- code units.
pub mod Diff
pub mod Glob
pub mod Validate
mod Tests
