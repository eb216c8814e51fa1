-- ===== src/Correlation.antt =====
-- Correlation of events in time: tools/correlation.py, with the contracts of models/logs.py.
pub mod Events
pub mod Episodes
pub mod Buckets
pub mod Windows
pub mod Carried
pub mod Sound
pub mod Order
pub mod Filled
pub mod Complete
mod Tests
