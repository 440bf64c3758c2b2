-- ===== src/Scs.antt =====
-- The reader of SCs-code.
pub mod Tables
pub mod TypeResolver
pub mod Parser
