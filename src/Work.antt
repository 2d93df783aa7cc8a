-- ===== src/Work.antt =====
-- src/mncs_commons/work.py: durable work records, their revisions and the histories of these.
pub mod States
pub mod Readers
pub mod Hygiene
pub mod Validate
pub mod Lineage
pub mod Revise
pub mod History
pub mod Submit
pub mod Listing
pub mod Next
