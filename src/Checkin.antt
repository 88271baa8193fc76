-- ===== src/Checkin.antt =====
-- Check-ins at the door: internal/service/checkin_service.go over
-- internal/repository/checkin_repository.go.
mod Repo
mod Admission
mod Service
mod Walkin
mod Once
mod Histories
mod Twice
mod Entries
mod Tests
