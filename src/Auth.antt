-- ===== src/Auth.antt =====
-- Accounts and sessions: internal/service/auth_service.go, internal/auth/refresh.go,
-- internal/auth/jwt.go and the repositories of users and of one-time tokens.
mod Rows
mod Repo
mod Tokens
mod Service
mod Register
mod Requests
mod Spent
mod Once
mod Used
mod Links
mod Gate
mod Slug
mod Tests
