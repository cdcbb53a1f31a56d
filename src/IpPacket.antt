-- ===== src/IpPacket.antt =====
-- src/ip_packet.cpp: the packet class that users of a device read and build (ip_packet).
pub mod Types
pub mod Parse
pub mod Build
pub mod Writes
pub mod Finish
pub mod Readback
pub mod Laid
pub mod Built
pub mod UdpPacket
pub mod Segment
pub mod TcpPacket
pub mod IcmpPacket
pub mod Views
pub mod Sound
pub mod Agreement
pub mod FragmentViews
pub mod Bounds
pub mod Overrun
