-- ===== src/Swim.antt =====
-- offchain-interface/pkg/transport/swim: the frame format and what is built on it.
pub mod Frame
pub mod Stream
pub mod FrameQueue
pub mod Decoder
pub mod Delivery
pub mod Delegate
