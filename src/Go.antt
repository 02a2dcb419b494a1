-- ===== src/Go.antt =====
-- The parts of Go's language and standard library that the program calls: what a call can end in
-- and the mutexes (`Sync`), decimal numbers (`Decimal`), and text (`Space`, `Split`).
pub mod Sync
pub mod Decimal
pub mod Space
pub mod Split
pub mod PathEscape
pub mod Filepath
