-- ===== src/Organizations.antt =====
-- plugins/organizations: organizations, members, roles, invitations, and teams.
mod Examples
pub mod Store
pub mod Events
pub mod Access
pub mod Members
pub mod Lifecycle
pub mod Custom
pub mod Invitations
pub mod Teams
pub mod Grants
pub mod Limits
pub mod Acceptance
pub mod History
