-- ===== src/Seating.antt =====
-- Seating: internal/service/seating_service.go over internal/repository/seating_repository.go.
-- `Repo` is the repository, `Service` the operations on tables and seats, `Auto` the automatic
-- assignment; the other modules prove what these keep.
pub mod Repo
pub mod Service
pub mod Auto
pub mod Capacity
pub mod Steps
pub mod Tables
pub mod Maps
pub mod AutoCapacity
mod AutoTotal
mod Update
mod Tests
