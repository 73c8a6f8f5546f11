-- ===== src/Lib.antt =====
-- Auth-All, an authentication library in Go: a model of its core and the theorems about it.
--
-- The program keeps users, sessions, one-time tokens, second factors and organizations in SQL tables.
-- A handler or a Go method reads rows, tests them, runs the hooks of the application, writes rows in a
-- transaction, and emits audit events. Here a table is the list of its rows, a statement is a function
-- on the tables, and an operation is a function from the tables and its arguments to a `Result`: the
-- changed tables with the answer and the events, or the error. A refused transaction leaves the tables
-- as they were. The clock, the random tokens and the identifiers of new rows are arguments.
--
-- The files and the code that they model:
--   Prelude        Boolean tests, lists, tables with find, update, delete and count, strings as lists of
--                  code points
--   Errors         apierr/apierr.go: the public errors with their HTTP status, and `Result`
--   Strings        the functions of Go's `strings` and `sort` that the code calls
--   Email          email/normalize.go: `Normalize`, `Valid`
--   Permission     plugins/organizations/permission/permission.go: `Parse` (parse), `NewSet` (new_set),
--                  `Covers` (covers), `CoversSet` (covers_set), `Union` (union)
--   Organizations  plugins/organizations/*.go over internal/sqlstore/organizations.go. Store has the
--                  tables and statements, Access the roles, `authorize` and `Require`, Members `SetRole`,
--                  `SetStatus`, `Remove` and `guardOwner`, Lifecycle `Create`, `Update` and `Delete`,
--                  Invitations, Custom and Teams what they name. History runs any sequence of them.
--                  Its children and Acceptance, Grants and Limits hold theorems.
--   RateLimit      ratelimit/ratelimit.go (`Memory`), ratelimit/storelimit/storelimit.go (`Decide`) and
--                  internal/sqlstore/ratelimit.go (`CountAttempt`)
--   Accounts       the rows of users and sessions in store/store.go and internal/sqlstore
--   Sessions       sessions.go: `lookupSession`, `resolveSession`, `createSession`
--   Tokens         tokens.go and internal/sqlstore/tokens.go: `issueToken`, `peekToken`, `consumeToken`
--   Totp           internal/totp/totp.go, internal/sqlstore/totp.go and `verifyTOTPCode`. Recovery has the
--                  enrolments and recovery codes, Recovery/Generation internal/crypto/recovery.go,
--                  Enrolment and Handlers the endpoints of handlers_totp.go. The generation runs on fuel, a unit for
--                  each code drawn; the source's loop has no bound, and ends when the draws vary.
--   Roles          roles_core.go: `Rank`, `AtLeast`, `SetRoles`
--   Admin          plugins/admin/operations.go: `SetRole`, `Disable`, `Enable`, `guardLastAdmin`
--   PrincipalCache principalcache.go: `get`, `put`
--   Principals     principal.go and middleware.go: `resolvePrincipal` (resolve_principal), `readPrincipal`,
--                  `checkHostOrigin`, `RequireAuth`, `LoadSession`. Types has the principals and the row of
--                  an API key, Request what a request carries, Cached and Bypass the cache under its requests.
--   ApiKeys        plugins/apikeys/apikeys.go over internal/sqlstore/apikeys.go: Scopes the configuration,
--                  Resolve `Resolve` and `RequireScope`, Create `Create`, `Revoke` and `List`. The others
--                  hold theorems: Power, Granted, Declared, Revoked, OrganizationKeys.
--   OAuthProvider  plugins/oauthprovider/*.go over internal/sqlstore/oauthprovider.go. Rows and Store have
--                  the tables and statements, Clients clients.go and the scopes of a request, Authorize
--                  authorize.go and pages.go, Issue and Exchange token.go, Resource resource.go. History,
--                  Endpoint and Runs follow any sequence of calls; Codes, Refresh, Narrowing, Rotation,
--                  Revocation and Audience hold the theorems.
--
-- How the parts meet: Organizations decides by the sets of Permission, Admin by the order of Roles;
-- Admin and Sessions share the rows of Accounts. Principals asks the resolvers of the plugins, which
-- ApiKeys and OAuthProvider are, and puts the answers in PrincipalCache; an API key of an organization
-- asks Organizations through the interface `OrganizationResolver`, which Access fills. The endpoints of
-- Totp spend a challenge of Tokens and sign in by Sessions.
--
-- Parameters: SHA-256 (`digest`), the HMAC code of a step (`code`), base32, lower case (`lower`) and upper
-- case, the random draws of a recovery code, the parser of
-- an email address (`parse_address`), the rewriting of a network address (`ip_key`), the type of a
-- cached principal, and the hooks, which can refuse a change and are taken to write no row. Of the OAuth
-- provider: the signatures (`sign_access`, `sign_id`, `verify`), the challenge of a PKCE verifier
-- (`challenge_of`), the parser of a URI (`parse_uri`), and the outcome of a DPoP proof. That a signature
-- verifies to the claims that were signed is a hypothesis of two theorems.
--
-- Every function is by structural recursion, `take_codes` of the recovery codes on fuel: one unit for each
-- code that is drawn, enough where the draws vary. Numbers are unbounded: times, counts and
-- steps stay far below the bounds of Go's integers.
--
-- Not modelled: failures of the database, foreign keys, the interleaving of two transactions beyond the
-- atomicity of each statement and transaction, message texts, HTTP, cookies and JSON, paged lists, the
-- extra columns of the application, dynamic registration, introspection and signing keys of the OAuth
-- provider, OAuth clients, magic links, JWT, schema and migrations.
mod Prelude
pub mod Errors
pub mod Strings
pub mod Email
pub mod Permission
pub mod Organizations
pub mod RateLimit
pub mod Accounts
pub mod Sessions
pub mod Roles
pub mod Admin
pub mod Tokens
pub mod PrincipalCache
pub mod Totp
pub mod Principals
pub mod ApiKeys
pub mod OAuthProvider
