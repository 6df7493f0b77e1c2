-- ===== src/Tests.antt =====
-- The theorems at concrete inputs.
mod Packets
mod Ports
mod Streams
mod Clients
mod Reports
mod Connections
mod Sessions
mod Frames
mod Messages
mod Sending
mod Pace
mod Pieces
mod System
mod Video
mod Requests
