-- ===== src/FileManager.antt =====
-- The file manager of hw1: one command for each run of the program.
pub mod Calls
pub mod Create
pub mod List
pub mod Read
pub mod Delete
pub mod Main
pub mod Tree
pub mod Memory
mod Tests
