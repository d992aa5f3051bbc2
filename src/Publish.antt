-- ===== src/Publish.antt =====
-- Publishing, src/clipforge/publish: posts, what to do about a failure, and the calendar.
pub mod Types
pub mod Codes
pub mod Retry
pub mod Figures
pub mod Limits
pub mod Calendar
pub mod Booking
pub mod Settling
pub mod Engine
mod Tests
