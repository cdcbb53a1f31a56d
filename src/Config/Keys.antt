-- ===== src/Config/Keys.antt =====
-- The five-tuple and UDP session keys of include/tunio/tun_config.hpp, and their equality.
use tunio.Base.{
  ℕ, ◌≡◌, Bool, true, false, ◌&&◌, List, [], ◌∷◌, ◌++◌, arith, take, replicate, ◌==◌, if◌then◌else◌,
  ◌↔◌,
}

-- Ports are held as the numbers that `ntohs` gives.
pub record FiveTuple : Type 0 where
  pub src_ip : List ℕ
  pub dst_ip : List ℕ
  pub src_port : ℕ
  pub dst_port : ℕ
  pub protocol : ℕ
  pub family : ℕ

pub record UdpSessionKey : Type 0 where
  pub src_ip : List ℕ
  pub src_port : ℕ
  pub family : ℕ

-- 16 bytes of which only the address's own are copied; the rest stay 0.
abbrev pub address_bytes : ℕ → List ℕ → List ℕ
address_bytes family ip = if family == 6 then take 16 ip else take 4 ip ++ replicate 12 0

unfoldable pub make_five_tuple : List ℕ → List ℕ → ℕ → ℕ → ℕ → ℕ → FiveTuple
make_five_tuple src_ip dst_ip src_port dst_port protocol family = record {
  src_ip = address_bytes family src_ip;
  dst_ip = address_bytes family dst_ip;
  src_port = src_port;
  dst_port = dst_port;
  protocol = protocol;
  family = family;
}

unfoldable pub make_udp_session_key : List ℕ → ℕ → ℕ → UdpSessionKey
make_udp_session_key src_ip src_port family = record {
  src_ip = address_bytes family src_ip;
  src_port = src_port;
  family = family;
}

unfoldable pub bytes_eq : List ℕ → List ℕ → Bool
bytes_eq [] [] = true
bytes_eq [] (y ∷ ys) = false
bytes_eq (x ∷ xs) [] = false
bytes_eq (x ∷ xs) (y ∷ ys) = x == y && bytes_eq xs ys

-- `operator==` on the keys.
unfoldable pub five_tuple_eq : FiveTuple → FiveTuple → Bool
unfolding bytes_eq
five_tuple_eq a b =
    a.family == b.family
    && (bytes_eq a.src_ip b.src_ip
        && (bytes_eq a.dst_ip b.dst_ip
            && (a.src_port == b.src_port
                && (a.dst_port == b.dst_port && a.protocol == b.protocol))))

unfoldable pub udp_session_key_eq : UdpSessionKey → UdpSessionKey → Bool
unfolding bytes_eq
udp_session_key_eq a b =
    a.family == b.family && (bytes_eq a.src_ip b.src_ip && a.src_port == b.src_port)

pub bytes_eq_iff : (xs ys : List ℕ) → (bytes_eq xs ys ≡ true) ↔ (xs ≡ ys)
unfolding bytes_eq
bytes_eq_iff [] [] = ground arith
bytes_eq_iff [] (y ∷ ys) = ground arith
bytes_eq_iff (x ∷ xs) [] = ground arith
bytes_eq_iff (x ∷ xs) (y ∷ ys) = ground (arith, bytes_eq_iff xs ys)

-- Two keys compare equal exactly when all their fields agree.
pub five_tuple_eq_iff : (a b : FiveTuple) → (five_tuple_eq a b ≡ true) ↔ (a ≡ b)
unfolding five_tuple_eq
five_tuple_eq_iff a b =
    ground (arith, bytes_eq_iff a.src_ip b.src_ip, bytes_eq_iff a.dst_ip b.dst_ip)

pub udp_session_key_eq_iff : (a b : UdpSessionKey) → (udp_session_key_eq a b ≡ true) ↔ (a ≡ b)
unfolding udp_session_key_eq
udp_session_key_eq_iff a b = ground (arith, bytes_eq_iff a.src_ip b.src_ip)
