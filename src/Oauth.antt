-- ===== src/Oauth.antt =====
-- pkg/oauth: the authorization side of the client.
pub mod Challenge
pub mod Scopes
pub mod Login
pub mod Types
pub mod Discovery
pub mod Flow
pub mod Stores
mod Tests
