-- ===== src/Scheduler.antt =====
-- internal/scheduler: which chunks a joiner asks for, when, and whom.
pub mod Tests
pub mod Strategy
pub mod Tick
pub mod Order
pub mod Selection
pub mod Budget
pub mod Requests
