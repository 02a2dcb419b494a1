-- ===== src/Fs.antt =====
-- The package `fs`: the nodes of the file system.
pub mod Node
pub mod Debuggee
pub mod Control
pub mod Kind
pub mod Policy
pub mod Hooks
pub mod Location
pub mod ThreadControl
pub mod EventDir
pub mod Events
pub mod ThreadDir
pub mod Threads
pub mod ThreadsNamed
pub mod Safe
pub mod Requests
pub mod Members
pub mod ClassInfo
pub mod Classes
pub mod ClassesBySignature
pub mod Root
pub mod Tree
