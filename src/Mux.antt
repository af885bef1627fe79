-- ===== src/Mux.antt =====
-- internal/mux: the stream multiplexer.
pub mod Ring
pub mod Stream
pub mod Flow
pub mod State
pub mod Methods
pub mod Registry
pub mod Handlers
pub mod Transfer
pub mod Run
