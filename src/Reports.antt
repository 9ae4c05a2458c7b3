-- ===== src/Reports.antt =====
-- src/ccreport/reports.py: the life of a report. The rows of `reports`, `report_items` and
-- `artifacts` (src/ccreport/models.py) are records; ids of rows are numbers that are only compared.
pub mod Model
pub mod Lifecycle
pub mod Order
pub mod Drafts
pub mod Edits
pub mod History
pub mod Lookup
pub mod Items
pub mod Justify
pub mod Submission
pub mod Progress
pub mod Produced
pub mod Ready
pub mod Frozen
pub mod Registry
mod Tests
