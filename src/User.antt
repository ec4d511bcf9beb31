-- ===== src/User.antt =====
-- kernel/el0/user_tasks.c: the programs of the user tasks.
pub mod Text
pub mod Calls
pub mod Emit
pub mod Written
pub mod Lines
pub mod Collect
pub mod Sort
pub mod Sorted
pub mod Median
pub mod Measured
pub mod Report
pub mod Tasks
pub mod TaskA
pub mod Clock
pub mod Server
pub mod Supervising
