-- ===== src/Writer/Pick.antt =====
-- `pick_tx_queue`: the queue of a packet.
use tunio.Base.{
  ℕ, ◌+◌, ◌-◌, ◌*◌, ◌/◌, ◌%◌, ◌^◌, List, [], ◌∷◌, Bool, ◌&&◌, ◌||◌, get_or, length, take, drop,
  be16, ltb, leb, ◌==◌, if◌then◌else◌,
}
use Prim.Native.Nat.{bit_xor}

-- `mix`, over the bytes given.
unfoldable pub mix : ℕ → List ℕ → ℕ
mix h [] = h
mix h (d ∷ ds) = mix (bit_xor h d * 1099511628211 % 2 ^ 64) ds

abbrev pub has_ports : ℕ → Bool
has_ports proto = proto == 6 || proto == 17

-- The hash of an IPv4 packet's flow; the ports count only where they are inside the packet.
unfoldable pub hash4 : List ℕ → ℕ
hash4 p =
    let ihl = get_or p 0 0 % 16 * 4 in
    let total = be16 p 2 in
    let proto = get_or p 9 0 in
    let h =
      mix (mix (mix 1469598103934665603 (take 4 (drop 12 p))) (take 4 (drop 16 p))) (proto ∷ []) in
    if leb 20 ihl
      && (leb ihl total && (leb total (length p) && (has_ports proto && leb 4 (total - ihl))))
    then mix h (take 4 (drop ihl p))
    else h

unfoldable pub hash6 : List ℕ → ℕ
hash6 p =
    let total = 40 + be16 p 4 in
    let proto = get_or p 6 0 in
    let h =
      mix (mix (mix 1469598103934665603 (take 16 (drop 8 p))) (take 16 (drop 24 p))) (proto ∷ []) in
    if leb 40 total && (leb total (length p) && (has_ports proto && leb 4 (total - 40)))
    then mix h (take 4 (drop 40 p))
    else h

unfoldable pub pick_tx_queue : List ℕ → ℕ → ℕ
pick_tx_queue p queue_count =
    if leb queue_count 1 || ltb (length p) 20
    then 0
    else if get_or p 0 0 / 16 == 4
    then hash4 p % queue_count
    else if get_or p 0 0 / 16 == 6
    then (if ltb (length p) 40 then 0 else hash6 p % queue_count)
    else 0
