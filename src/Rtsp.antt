-- ===== src/Rtsp.antt =====
-- rtsp/: the buffers of a connection, and the states of its session.
pub mod Buffer
pub mod Bytes
pub mod Stream
pub mod Removal
pub mod Machine
pub mod Transitions
pub mod Message
pub mod Framing
pub mod Request
pub mod Rounds
pub mod Method
pub mod Words
pub mod Command
pub mod Handler
pub mod Waiting
pub mod Pipeline
pub mod Interleaved
pub mod Text
pub mod Url
pub mod Check
pub mod Sessions
pub mod Play
pub mod Describe
pub mod Logged
pub mod Replies
pub mod Paths
pub mod Served
pub mod Teardown
pub mod Pausing
pub mod Playing
pub mod Serves
