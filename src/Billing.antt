-- ===== src/Billing.antt =====
-- Plans, subscriptions and payments: internal/service/billing_service.go and what it stands on.
mod Calendar
mod Repo
mod Service
mod Expiry
mod Requests
mod Kept
mod Paid
mod PaidOnce
mod Current
mod Sweep
mod Activation
mod Tests
