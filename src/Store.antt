-- ===== src/Store.antt =====
-- The stores over the MySQL database, internal/store.
pub mod App
pub mod Vocabulary
pub mod LocalConfig
pub mod Rows
pub mod Registry
pub mod Listing
