-- ===== src/RoadEvent.antt =====
-- packages/domain/src/road-event: the aggregate `RoadEvent`. Its constructor and methods throw, so they
-- return a `Result`; a method that mutates returns the new record. `now` is the value of `Date.now()`,
-- in milliseconds; a `Date` is `none` where its time is NaN.
mod Status
mod Severity
mod Aggregate
pub mod Access
pub mod Validity
pub mod Authorizing
pub mod Operations
pub mod Closure
mod Tests
unfoldable pub use Status.*
unfoldable pub use Severity.*
unfoldable pub use Aggregate.*
