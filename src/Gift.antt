-- ===== src/Gift.antt =====
-- Gifts of guests: internal/service/guest_gift_service.go and
-- internal/repository/guest_gift_repository.go.
mod Repo
mod Service
mod Book
mod Refine
mod Answer
mod Tests
