-- ===== src/Normalization.antt =====
-- src/normalization: domains and company names, contacts and titles. Texts are ASCII where their case is changed or
-- their words are told apart.
pub mod Domains
pub mod Contacts
pub mod Titles
pub mod Companies
mod Tests
