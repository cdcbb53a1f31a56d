-- ===== src/Tcp.antt =====
-- src/tcp_engine.cpp and include/tunio/detail/tcp_engine.hpp.
pub mod Types
pub mod Output
pub mod Lifecycle
pub mod Receive
pub mod Ooo
pub mod Segments
pub mod Writing
pub mod Socket
pub mod Dispatch
pub mod Upkeep
pub mod Machine
