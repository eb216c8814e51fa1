-- ===== src/Access.antt =====
-- Who may do what, and how often: backend/auth/rbac.py and backend/middleware/rate_limit.py.
pub mod Roles
pub mod RateLimit
pub mod Limit
mod Tests
