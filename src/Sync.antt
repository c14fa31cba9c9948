-- ===== src/Sync.antt =====
-- es3/sync.cpp: what a synchronization does to two trees of files, as the tasks it schedules.
pub mod Tree
pub mod Included
pub mod Merge
pub mod Merging
pub mod Uploads
pub mod Downloads
pub mod Plans
pub mod Safety
pub mod Fresh
pub mod Local
pub mod Schedule
pub mod Printing
pub mod Publishing
