-- ===== src/Mcp.antt =====
-- internal/mcp: tool calls of MCP servers, priced and recorded from the JSON-RPC messages that
-- pass. Decoding of JSON is a parameter: a message comes as what it decodes to.
pub mod Pricing
pub mod Interceptor
pub mod HttpProxy
mod Examples
