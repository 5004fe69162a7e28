-- ===== src/Checklist.antt =====
-- The dynamic checklist engine, packages/shared/src/checklist-engine.ts: the data model, the
-- classification of answers, Mark All Acceptable, and the validation of a filled checklist.
pub mod Items
pub mod Responses
pub mod Order
pub mod Filling
pub mod Validation
pub mod Tests
