-- ===== src/Debug.antt =====
-- The package `debug`: errors, plugins, debugging events and their manager.
pub mod Errors
pub mod Plugins
pub mod Event
pub mod Manager
