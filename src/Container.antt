-- ===== src/Container.antt =====
-- Containers of sc-memory/sc-core/src/sc-store/sc-container.
pub mod Queue
pub mod Dictionary
