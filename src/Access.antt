-- ===== src/Access.antt =====
-- Who calls: the API key of a request, its tenant, and the keys that are blocked.
pub mod Keys
pub mod Tenant
pub mod Blocklist
mod Examples
