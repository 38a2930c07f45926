-- ===== src/Bridge.antt =====
-- run_bridge of src/main.cpp.
pub mod RawSysex
pub mod Deltas
pub mod Loop
pub mod Feedback
pub mod Events
pub mod Whole
mod Tests
