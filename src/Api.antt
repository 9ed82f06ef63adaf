-- ===== src/Api.antt =====
-- src/api/middleware.py and src/api/deps.py: which workspace a request acts for.
pub mod Middleware
pub mod Access
pub mod Entry
pub mod Pages
pub mod Auth
mod Tests
