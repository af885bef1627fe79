-- ===== src/Proto.antt =====
-- internal/proto: the frame codec and the protocol's constants.
pub mod Io
pub mod Types
pub mod Frame
pub mod Magic
pub mod Heartbeat
