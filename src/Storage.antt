-- ===== src/Storage.antt =====
-- The storage of sc-elements, sc-memory/sc-core/src/sc-store.
pub mod Element
pub mod State
pub mod Result
pub mod Allocate
pub mod Generate
pub mod Access
pub mod Erase
pub mod Iterator3
pub mod Iterator5
pub mod Views
pub mod Free
pub mod Incidence
pub mod Search
pub mod Bounds
pub mod Refused
pub mod Lists
pub mod Statistics
