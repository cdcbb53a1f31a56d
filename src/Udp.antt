-- ===== src/Udp.antt =====
-- include/tunio/detail/udp_engine.hpp and src/udp_engine.cpp: the datagrams that the UDP engine sends, and its
-- sessions.
pub mod Arrival
pub mod Books
pub mod Carriage
pub mod Completion
pub mod Datagram
pub mod Delivery
pub mod Ending
pub mod Expiry
pub mod Fragments
pub mod Heap
pub mod Idle
pub mod Limits
pub mod Reassembly
pub mod Presence
pub mod Refresh
pub mod Sending
pub mod Tracking
pub mod Types
