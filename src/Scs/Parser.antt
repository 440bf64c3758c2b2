-- ===== src/Scs/Parser.antt =====
-- `scs::Parser` of sc-memory/sc-memory/src/scs/scs_parser.cpp: what the grammar's actions do.
pub mod Element
pub mod State
pub mod Append
pub mod Link
pub mod Triple
pub mod Contour
pub mod Generation
pub mod Store
pub mod Invariant
