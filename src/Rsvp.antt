-- ===== src/Rsvp.antt =====
-- Answers to invitations: internal/service/rsvp_service.go and
-- internal/repository/rsvp_repository.go.
pub mod Repo
pub mod Service
mod Officer
mod Capacity
pub mod Effect
mod Gate
mod Record
mod Tests
