-- ===== src/TrieDb.antt =====
-- The database of db/triedb.hpp and db/triedb.cpp.
mod Examples
pub mod Words
pub mod Ranks
pub mod Nodes
pub mod Pointers
pub mod Files
pub mod Update
pub mod Children
pub mod Appends
pub mod Tries
pub mod Remove
pub mod Roots
pub mod Records
pub mod RoundTrips
