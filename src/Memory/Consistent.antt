-- ===== src/Memory/Consistent.antt =====
-- Which methods of the store keep its maps consistent.
pub mod Tokens
pub mod Create
pub mod Remove
pub mod Update
pub mod ByUser
pub mod Conflict
pub mod Reads
pub mod Run
pub mod Writes
pub mod Quota
