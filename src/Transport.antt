-- ===== src/Transport.antt =====
-- crates/openlv/src/transport: the messages of a session and the WebRTC layer.
pub mod Message
pub mod Webrtc
