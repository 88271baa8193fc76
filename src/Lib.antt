-- ===== src/Lib.antt =====
-- guestbook: a verification library for GuestFlow, a service in Go for the guests of events.
--
-- The program is a set of services over one PostgreSQL database. A request goes through a handler
-- to one method of a service, which reads and writes rows through repositories, one statement
-- after the other, and mostly without a transaction. The parts that are modelled:
--
--   * Store: the rows (internal/domain/*.go) and the queries that several services share
--     (internal/repository/{event,guest,event_guest,invitation}_repository.go). The database is
--     one record of tables, and a table a list of rows in the order the database returns them.
--   * Rbac: who may do what. Rbac/Roles.antt is internal/domain/role.go and
--     internal/rbac/permissions.go, Rbac/Service.antt the cached checks of internal/rbac/rbac.go,
--     Rbac/Team.antt `UpdateUserRole` and `RemoveUser` of internal/service/tenant_service.go.
--   * Auth: sign-in. Auth/Rows.antt are the rows (internal/domain/{user,token,tenant}.go);
--     Auth/Repo.antt internal/repository/{user,refresh_token,email_verification,auth_email_token}_repository.go;
--     Auth/Tokens.antt internal/auth/refresh.go; Auth/Service.antt and Auth/Register.antt
--     internal/service/auth_service.go; Auth/Requests.antt serves sequences of its calls.
--   * Event: events. Event/Repo.antt is internal/repository/event_repository.go, Event/Service.antt
--     and Event/Lists.antt (the list with its pages) internal/service/event_service.go.
--   * Gift: gifts of guests. Gift/Repo.antt is internal/repository/guest_gift_repository.go,
--     Gift/Service.antt internal/service/guest_gift_service.go, Gift/Book.antt the book of entries
--     that they implement.
--   * Invite: invitations. Invite/Repo.antt is internal/repository/invitation_repository.go,
--     Invite/Service.antt internal/service/invitation_service.go; Invite/Calls.antt serves
--     sequences of its calls and of the answers of Rsvp.
--   * Seating: Seating/Repo.antt is internal/repository/seating_repository.go, Seating/Service.antt
--     and Seating/Auto.antt are internal/service/seating_service.go.
--   * Rsvp: the answers to invitations. Rsvp/Repo.antt is internal/repository/rsvp_repository.go,
--     Rsvp/Service.antt `Submit` and the checks of internal/service/rsvp_service.go, Rsvp/Officer.antt
--     the officers' calls.
--   * Checkin: Checkin/Repo.antt is internal/repository/checkin_repository.go;
--     Checkin/Admission.antt (`performCheckin` and what it calls), Checkin/Service.antt
--     and Checkin/Walkin.antt are internal/service/checkin_service.go.
--   * Billing: plans, subscriptions and payments. Billing/Repo.antt is
--     internal/repository/billing_repository.go and what billing uses of tenant_repository.go and
--     user_repository.go; Billing/Service.antt (`Checkout` and the webhook) and Billing/Expiry.antt
--     (`GetSubscriptionStatus` and the daily sweep) are internal/service/billing_service.go, with
--     the tests of internal/payment/midtrans_client.go; Billing/Calendar.antt is `AddDate`;
--     Billing/Requests.antt serves sequences of these calls.
--
-- They meet in the store: an answer and a check-in start from an invitation or a roster entry, a
-- seat from a guest and a roster entry. A role decides in a handler whether a service is called.
--
-- Prelude holds the tests, list functions, integers and texts that all parts use; Action the
-- errors, the calls that may fail and change a store, and the environment; Samples a small store.
-- Each part has its theorems in modules named for what they show, and its tests and examples in a
-- module Tests.
--
-- The tables of sign-in are a second record, Auth.Rows.Accounts.
--
-- A method is a function from the store to a result and a store. What the outside decides is a
-- record Env: whether the statement at a place of the method fails, what the clock says there, and
-- which identifier is drawn. A failed statement changes nothing; statements that ran before it
-- stay, as in the code. Every theorem that does not say otherwise holds for every environment.
-- Requests are served one after the other: interleavings of two requests are not modelled, except
-- for the late entry of the permission cache. A 64-bit `int` is an integer, and where the code adds
-- two of them the sum is wrapped. The loops are recursions on lists, so no fuel is used.
-- What the code calls in other libraries is a parameter: SHA-256 and the texts of random tokens
-- and links (Invite.Service.Links), and for sign-in also bcrypt, signed tokens, mail, and the
-- normal forms of texts (Auth.Rows.Libraries). Identifiers and times are numbers, and the JSON
-- documents of the audit log are left out.
--
-- Not modelled: guests' own records, households and the import; who sees an event;
-- communication, WhatsApp and the wording of mails; dashboards, statistics and the lists other than
-- that of events; seating zones and the layout view; the handlers, the middleware, the
-- configuration and the web pages.
pub mod Prelude
pub mod Action
pub mod Store
pub mod Samples
pub mod Rbac
pub mod Seating
pub mod Rsvp
pub mod Checkin
pub mod Billing
pub mod Auth
pub mod Event
pub mod Gift
pub mod Invite
