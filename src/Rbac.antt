-- ===== src/Rbac.antt =====
-- Role-based access control: internal/domain/role.go, internal/domain/event_member.go and
-- internal/rbac. `Roles` holds the tables and the tests on them, `Service` the cached checks,
-- `Team` the changes of a membership (internal/service/tenant_service.go).
pub mod Roles
pub mod Service
pub mod Team
pub mod Grants
pub mod Cache
pub mod Changes
pub mod Owner
mod Tests
