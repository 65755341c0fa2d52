-- ===== src/Time.antt =====
-- crates/monoio/src/time: periodic ticks.
pub mod Interval
pub mod Entry
pub mod Wheel
pub mod Driver
mod Tests
