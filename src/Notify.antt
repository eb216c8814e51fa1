-- ===== src/Notify.antt =====
-- Outbound alerts: services/notifications.py (whether, where, in what order),
-- backend/services/notifications.py (the dispatch) and the repository that it writes to.
pub mod Contracts
pub mod Routing
pub mod Keys
pub mod Database
pub mod Approval
pub mod Attempts
pub mod Dispatch
pub mod Failover
pub mod Retry
mod Tests
