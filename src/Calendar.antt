-- ===== src/Calendar.antt =====
-- imports/utils/timecardDate.js: calendar dates in the form YYYY-MM-DD, start times, and the Dates
-- that shadow them.
pub mod Civil
pub mod Days
pub mod DateOnly
pub mod Instant
pub mod Time
mod Tests
