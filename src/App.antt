-- ===== src/App.antt =====
-- pkg/app: the configuration file, its profiles, and the entries in the clients' files.
pub mod Toml
pub mod Profile
pub mod Entries
pub mod Install
pub mod Session
mod Tests
