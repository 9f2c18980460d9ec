-- ===== src/Demo.antt =====
-- The programs of demo that keep a state of their own between tasks.
pub mod Async
pub mod Pipe
pub mod Waves
