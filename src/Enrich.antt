-- ===== src/Enrich.antt =====
-- internal/enrich: what the providers say of an address, merged, classified and cached.
pub mod Partial
pub mod Service
pub mod Keys
pub mod Dnsbl
