-- ===== src/Catalog.antt =====
-- The catalog (internal/catalog).
pub mod Repository
pub mod Effective
pub mod Slug
pub mod Service
pub mod Groups
