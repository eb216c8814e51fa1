-- ===== src/Versions.antt =====
-- tools/versions.py: reading versions, comparing them, and deciding whether a CVE applies.
pub mod Version
pub mod Order
pub mod Product
pub mod Applicability
pub mod Ranges
pub mod Evidence
pub mod Loops
pub mod Verdicts
mod Tests
