-- ===== src/Inspections.antt =====
-- apps/api/src/inspection-records: the service that drafts, fills, submits, checks, verifies,
-- returns, rejects and voids inspection records, and records the loading decision of a truck.
pub mod State
pub mod Access
pub mod Mapping
pub mod Detail
pub mod Review
pub mod Answers
pub mod Submit
pub mod Decision
pub mod Drafts
pub mod Untouched
pub mod History
pub mod Fixture
pub mod Tests
pub mod TruckDrafts
