-- ===== src/Tasks.antt =====
-- kernel/tasks.rs
pub mod TimeOut
pub mod Notifications
pub mod Ready
pub mod Delays
pub mod Suspension
pub mod Events
mod Tests
pub mod Priorities
