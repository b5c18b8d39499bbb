-- ===== src/Booking/Endings.antt =====
-- How the transactions end that cancel, confirm, compensate and expire a booking, and that they
-- keep the invariant.
mod Moves
mod Calls
mod Payments
mod Worker
pub use Moves.*
pub use Calls.*
pub use Payments.*
pub use Worker.*
