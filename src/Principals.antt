-- ===== src/Principals.antt =====
-- principal.go, middleware.go and plugin/plugin.go: what a credential resolves to, and the gates of the
-- routes of the application.
mod Examples
pub mod Types
pub mod Request
pub mod Resolution
pub mod Gates
pub mod Cached
pub mod Bypass
