-- ===== src/Db.antt =====
-- db/models.py and db/repos.py: the tables as lists of rows in the order of their insertion, which
-- is the order of `created_at`, and one function for each query or update.
pub mod Models
pub mod Rows
pub mod Threads
pub mod Packet
pub mod Documents
