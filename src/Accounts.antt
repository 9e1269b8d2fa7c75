-- ===== src/Accounts.antt =====
-- Who the drivers are: pkg/auth, and the accounts of services/gateway/internal/handler/auth.go.
pub mod Domain
pub mod Http
pub mod Token
pub mod Account
pub mod Sessions
pub mod Searching
