-- ===== src/Timer.antt =====
-- imports/api/users/server/timerTransitions.js: the running timer of a user, started and stopped by
-- compare-and-swap on the user's document.
pub mod Profile
pub mod Start
pub mod Stop
pub mod History
pub mod Replay
pub mod Refinement
pub mod Recovery
mod Tests
