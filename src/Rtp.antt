-- ===== src/Rtp.antt =====
-- rtp/: the pool of port pairs, and the transports that take their ports there.
pub mod PortPool
pub mod Transport
pub mod Send
