-- ===== src/IpPacket/Views.antt =====
-- The packet as `do_parse` leaves it when the IP header was read, before the transport's.
use tunio.Base.{
  ℕ, ◌+◌, ◌-◌, ◌*◌, ◌%◌, List, ◌++◌, not, some, take, drop, replicate, be16, get_or, ◌==◌,
}
use tunio.IpPacket.Types.{Storage, Builder, IpPacket, cleared, ihl_len}

abbrev pub ihl : List ℕ → ℕ
ihl bytes = ihl_len (get_or bytes 0 0)

abbrev pub total : List ℕ → ℕ
total bytes = be16 bytes 2

module _ (bytes : List ℕ) (buf : Storage) (bld : Builder) where
  -- The IP layer's views of version 4, and of version 6.
  abbrev pub seen4 : IpPacket
  seen4 = record (cleared buf bld) {
    v4 = take 20 bytes;
    version = 4;
    protocol = get_or bytes 9 0;
    src_ip = take 4 (drop 12 bytes) ++ replicate 12 0;
    dst_ip = take 4 (drop 16 bytes) ++ replicate 12 0;
    total_len = total bytes;
    fragmented = not (be16 bytes 6 % 16384 == 0);
    frag_offset = be16 bytes 6 % 8192 * 8;
    payload = some (ihl bytes);
    payload_len = total bytes - ihl bytes;
  }

  abbrev pub seen6 : IpPacket
  seen6 = record (cleared buf bld) {
    v6 = take 40 bytes;
    version = 6;
    protocol = get_or bytes 6 0;
    src_ip = take 16 (drop 8 bytes);
    dst_ip = take 16 (drop 24 bytes);
    total_len = 40 + be16 bytes 4;
    payload = some 40;
    payload_len = be16 bytes 4;
  }
