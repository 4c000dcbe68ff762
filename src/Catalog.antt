-- ===== src/Catalog.antt =====
-- The parts of services/catalog/.
pub mod Pagination
pub mod QueryContinuity
