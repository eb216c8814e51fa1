-- ===== src/Sessions.antt =====
-- backend/auth/sessions.py: server-side sessions and rotating refresh tokens.
pub mod Records
pub mod Store
pub mod InMemory
pub mod Service
pub mod Outcomes
pub mod Rotation
pub mod Invariant
pub mod Family
mod Tests
