-- ===== src/Cases.antt =====
-- The life of a case: backend/services/investigations.py, report.py and remediation.py, the worker of
-- backend/workers/investigations.py and the decision route of backend/api/routes/investigations.py.
pub mod Tables
pub mod Lifecycle
pub mod Reports
pub mod Plans
pub mod Approvals
pub mod Worker
pub mod Decision
pub mod Statuses
pub mod Gate
mod Resume
pub mod Course
pub mod Advance
pub mod Tracking
pub mod Authority
pub mod Versions
pub mod Screen
mod Tests
