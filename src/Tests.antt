-- ===== src/Tests.antt =====
-- Concrete objects and libraries, and the theorems applied to them.
mod Data
mod Writes
mod Copies
mod Reads
mod Requests
mod Orders
mod Starts
mod Sweeps
mod Servers
mod Discoveries
mod Bounds
mod Stores
mod Launches
