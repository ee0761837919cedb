-- ===== src/Auth.antt =====
-- The package auth of server-web and the gin middleware that uses it: tokens, accounts, guards.
pub mod Token
pub mod Accounts
pub mod Guards
pub mod Toy
mod Tests
