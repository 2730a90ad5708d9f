-- ===== src/Provider.antt =====
-- internal/provider: which provider a request is for, and what its bodies tell.
pub mod Meta
pub mod Json
pub mod Compat
pub mod Anthropic
pub mod Azure
pub mod Gemini
pub mod Cohere
pub mod Registry
mod Examples
