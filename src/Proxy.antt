-- ===== src/Proxy.antt =====
-- internal/proxy: which requests pass, and what the proxy records of the replies.
pub mod Bytes
pub mod Stream
pub mod Handler
pub mod Response
pub mod Rewrite
mod Examples
