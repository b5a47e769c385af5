-- ===== src/Lsp.antt =====
-- crates/oxyris-lsp/src/transport.rs: JSON-RPC messages framed by `Content-Length` over the pipes of
-- a language server.
pub mod Framing
pub mod Dispatch
pub mod RoundTrip
pub mod Answered
