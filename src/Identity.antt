-- ===== src/Identity.antt =====
-- Accounts, sign-in and roles: internal/identity, internal/domain/user.go and the middleware of
-- internal/pkg/httputil that guards the handlers.
pub mod Users
pub mod Repository
pub mod Jwt
pub mod Service
pub mod Reset
pub mod Admin
pub mod Results
pub mod Sound
pub mod Rows
pub mod Rotation
pub mod Issue
pub mod SignIn
pub mod Access
mod Samples
mod Tests
