-- ===== src/Tests.antt =====
-- The tests: the theorems on concrete tables, graphs and strings.
pub mod Tables
pub mod Graphs
pub mod Strings
pub mod Settings
pub mod Pacman
pub mod Downloads
pub mod Packages
pub mod Queries
pub mod Syncs
pub mod Gets
pub mod Resolves
pub mod Installs
