-- ===== src/WebSocket.antt =====
-- cwebsocket/websocket.{h,c}: the frames of the protocol and its opening handshake.
pub mod Types
pub mod Ensures
pub mod Rfc
pub mod Names
pub mod Frame
pub mod Request
pub mod Handshake
pub mod Answer
