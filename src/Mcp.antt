-- ===== src/Mcp.antt =====
-- pkg/mcp: the Streamable HTTP client and the stdio bridge.
pub mod Sse
pub mod Http
pub mod Client
pub mod Transport
pub mod Bridge
pub mod Threads
pub mod Stdio
mod Tests
