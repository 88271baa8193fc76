-- ===== src/Store.antt =====
-- The rows of the database and the store that the services work on: the structs of
-- internal/domain, and the tables that internal/repository reads and writes.
--
-- A UUID is a number, `uuid.Nil` is 0. A time is the number of nanoseconds
-- since Go's zero time, the start of the year 1 in UTC. An `int` is an
-- integer; a coordinate (`float64`, stored as DECIMAL) is an integer, its value in the column's
-- last place. A text with a closed set of constants that the code tests is a data type with a
-- constructor for each constant and `other` for any other text. The order of a list is the order
-- in which the database returns the rows; nothing is assumed of it.
mod Status
mod Rows
mod Accounts
mod Queries
pub use Status.*
pub use Rows.*
pub use Accounts.*
unfoldable pub use Queries.*
