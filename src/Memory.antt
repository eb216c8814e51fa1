-- ===== src/Memory.antt =====
-- Agent memory: memory/working.py, memory/hot.py, memory/durable.py and memory/session.py.
pub mod Working
pub mod Eviction
pub mod Nested
pub mod Hot
pub mod Durable
pub mod Session
pub mod Coherence
pub mod Refinement
pub mod Recovery
pub mod Context
mod Tests
mod SessionTests
