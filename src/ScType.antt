-- ===== src/ScType.antt =====
-- The types of sc-elements.
pub mod Flags
pub mod Elements
pub mod Arcs
pub mod Names
pub mod Extend
pub mod Methods
