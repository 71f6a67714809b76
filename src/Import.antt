-- ===== src/Import.antt =====
-- src/import.cpp and the tables of src/init.cpp: the data that is loaded, and how the warehouses are
-- shared out among the loader threads.
pub mod Gen
pub mod Schema
pub mod Rows
pub mod Load
pub mod Types
pub mod Texts
pub mod Conforming
pub mod Orders
pub mod Split
mod Tests
