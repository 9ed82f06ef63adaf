-- ===== src/Db.antt =====
-- src/db/queries.py: the tables, the queries on them, and what a workspace can see and change.
pub mod Tables
pub mod Rows
pub mod Queries
pub mod Requests
pub mod Own
pub mod Isolation
pub mod Interleaving
pub mod Lifecycle
pub mod UploadTrip
pub mod Samples
mod Tests
