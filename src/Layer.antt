-- ===== src/Layer.antt =====
-- crates/openlv/src/signaling/layer/mod.rs: the handshake over the signaling channel. A method of
-- `SignalingInner` is a function of the layer's state, run to its end before the next one starts;
-- `?` keeps the state reached when a step fails.
pub mod State
pub mod Monad
pub mod Invariant
pub mod Sending
pub mod Opening
pub mod Receive
pub mod Lifecycle
pub mod Meeting
mod Tests
