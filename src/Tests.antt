-- ===== src/Tests.antt =====
-- The theorems at concrete inputs: sample values, and one application of each theorem.
mod Samples
mod Stack
mod Tx
mod Wire
mod Datagrams
mod Packets
mod Runs
mod Flows
mod Sockets
