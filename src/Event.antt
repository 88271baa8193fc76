-- ===== src/Event.antt =====
-- The life cycle of events: internal/service/event_service.go and
-- internal/repository/event_repository.go.
mod Repo
mod Service
mod Lists
mod Ordered
mod Effect
mod Changes
mod Steps
mod Final
mod Pages
mod Tests
