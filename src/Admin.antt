-- ===== src/Admin.antt =====
-- internal/admin: the settings that are changed at run time, and the API that changes them.
pub mod Store
pub mod Types
pub mod Api
mod Examples
