-- ===== src/Invite.antt =====
-- Invitations: internal/service/invitation_service.go and
-- internal/repository/invitation_repository.go.
mod Repo
mod Service
mod Effect
mod Answers
mod Once
mod Batch
mod Calls
mod Closed
mod Tests
