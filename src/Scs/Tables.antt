-- ===== src/Scs/Tables.antt =====
-- The tables of `scs::TypeResolver`.
pub mod Designations
pub mod Connectors
pub mod Keynodes
pub use Designations.*
pub use Connectors.*
pub use Keynodes.*
