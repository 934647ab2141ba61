-- ===== src/Table.antt =====
-- A table of the database is the list of its rows. These are the SQL statements that the program
-- sends, and the facts about them that the components share.
mod Query
pub mod Laws
pub mod Order
pub mod Upsert
unfoldable pub use Query.*
