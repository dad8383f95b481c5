-- ===== src/Resource.antt =====
-- The resource directory, hpr/resource.
pub mod HandleStore
pub mod AssetBank
