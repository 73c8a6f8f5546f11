-- ===== src/OAuthProvider.antt =====
-- plugins/oauthprovider and internal/sqlstore/oauthprovider.go: the OAuth 2.0 authorization server.
mod Examples
mod Fixtures
pub mod Rows
pub mod Store
pub mod Clients
pub mod Issue
pub mod Exchange
pub mod Resource
pub mod Authorize
pub mod History
pub mod Endpoint
pub mod Runs
pub mod Codes
pub mod Refresh
pub mod Narrowing
pub mod Rotation
pub mod Revocation
pub mod Audience
