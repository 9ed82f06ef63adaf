-- ===== src/Db/Queries.antt =====
-- src/db/queries.py, the query functions. What the server makes, ids and times, are arguments.
pub mod Campaigns
pub mod Keys
pub mod Users
pub mod Scores
pub mod Notices
pub mod Uploads
