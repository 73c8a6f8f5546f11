-- ===== src/ApiKeys.antt =====
-- plugins/apikeys/apikeys.go and internal/sqlstore/apikeys.go: the machine credentials of a user.
mod Examples
pub mod Store
pub mod Scopes
pub mod Resolve
pub mod Create
pub mod Power
pub mod Revoked
pub mod Granted
pub mod Declared
pub mod OrganizationKeys
