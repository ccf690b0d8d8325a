-- ===== src/WebSocket.antt =====
-- lib/WebSocket/src/SNFWebSocket.
pub mod Frame
pub mod Session
pub mod Base64
pub mod Sha1
pub mod Handshake
