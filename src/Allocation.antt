-- ===== src/Allocation.antt =====
-- Allocation: which offering of which instance type a launch gets
-- (pkg/providers/allocationstrategy and its stages).
pub mod Sorting
pub mod Rank
pub mod Order
pub mod Recommend
pub mod Stages
pub mod Filters
pub mod Rankings
pub mod Best
pub mod Allocated
pub mod Groups
pub mod FailOpen
pub mod Failing
mod Tests
