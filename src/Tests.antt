-- ===== src/Tests.antt =====
-- Runs of the program's functions at fixed inputs, and the theorems at concrete ones.
mod Addresses
mod Allocation
mod Contours
mod Erasure
mod Iterators
mod Monitors
mod Dictionaries
mod Types
mod Reader
