-- ===== src/Task.antt =====
-- crates/monoio/src/task: the task cell, its packed state word, and the handles that share it.
pub mod State
pub mod Cell
pub mod Harness
pub mod System
