-- ===== src/H264.antt =====
-- mediainfo/read_h264.c: the reader of H.264 byte streams and its packets.
pub mod File
pub mod Nalu
pub mod Read
pub mod Scan
pub mod Units
pub mod Pass
pub mod Receive
pub mod Fragment
pub mod Sent
pub mod Playback
pub mod Roundtrip
pub mod Adjacent
