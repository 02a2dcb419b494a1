-- ===== src/Tests.antt =====
-- The theorems at concrete data.
pub mod Data
mod Manager
mod Events
mod Files
mod Locations
mod Directories
mod Threads
pub mod Sorting
mod Requests
mod Classes
mod Tree
