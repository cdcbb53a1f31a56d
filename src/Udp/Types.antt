-- ===== src/Udp/Types.antt =====
-- The state of the UDP engine: sessions, their queues, the table and the heap of expiries.
use tunio.Base.{ℕ, List, [], ◌∷◌, ◌++◌, Bool, Option, none, some, ◌==◌, if◌then◌else◌}
use tunio.Config.{Config, Stats, incr}
use tunio.Config.Keys.{UdpSessionKey, udp_session_key_eq}
use tunio.Account.{Account}

-- An address of the family's size, and a port.
pub record Endpoint : Type 0 where
  pub family : ℕ
  pub address : List ℕ
  pub port : ℕ

-- `udp_session::datagram`
pub record Datagram : Type 0 where
  pub data_ : List ℕ
  pub sender : Endpoint

-- `udp_session::read_op`: the sizes of its buffers, their total, and the handler's identity.
pub record ReadOp : Type 0 where
  pub sizes : List ℕ
  pub total : ℕ
  pub handler : ℕ

-- `udp_session`; times are in milliseconds.
pub record Session : Type 0 where
  pub key : UdpSessionKey
  pub closed : Bool
  pub pending_accept : Bool
  pub timeout : ℕ
  pub expiry : ℕ
  pub expiry_gen : ℕ
  pub last_heap_push : ℕ
  pub heap_live : Bool
  pub rx_datagrams : List Datagram
  pub rx_bytes : ℕ
  pub pending_reads : List ReadOp

pub data UdpError : Type 0 where
  success operation_aborted bad_descriptor family_not_supported message_size : UdpError

-- Completions: of a read with the bytes it got and their sender, and of an accept with the session.
pub data UdpEffect : Type 0 where
  read_done : ℕ → UdpError → List ℕ → Option Endpoint → UdpEffect
  accept_done : ℕ → UdpError → Option ℕ → UdpEffect

pub record ExpiryEntry : Type 0 where
  pub at : ℕ
  pub gen : ℕ
  pub session : ℕ

-- The engine with the objects behind its session pointers; the next object has the identity `fresh`. The
-- heap is a list in the order of expiry.
pub record UdpEngine : Type 0 where
  pub cfg : Config
  pub account : Account
  pub stats : Stats
  pub sessions : List (UdpSessionKey × ℕ)
  pub objects : ℕ → Session
  pub fresh : ℕ
  pub pending_accepts : List ℕ
  pub pending_new_sessions : List ℕ
  pub expiry_heap : List ExpiryEntry
  pub timer_waiting : Bool
  pub armed_target : ℕ
  pub wait_gen : ℕ
  pub now : ℕ
  pub out : List UdpEffect

abbrev pub max_pending_new_sessions : ℕ
max_pending_new_sessions = 1024

abbrev pub k_expiry_push_interval : ℕ
k_expiry_push_interval = 500

abbrev pub set_session : UdpEngine → ℕ → Session → UdpEngine
set_session u i s = record u { objects = λ j. if j == i then s else u.objects j }

abbrev pub emit : UdpEngine → UdpEffect → UdpEngine
emit u e = record u { out = u.out ++ (e ∷ []) }

abbrev pub count_drop : UdpEngine → UdpEngine
count_drop u = record u { stats = record u.stats { rx_dropped = incr u.stats.rx_dropped } }

-- `sessions_.find` and `sessions_.erase`.
unfoldable pub find_session : UdpSessionKey → List (UdpSessionKey × ℕ) → Option ℕ
find_session key [] = none
find_session key (e ∷ es) =
    let rest = find_session key es in if udp_session_key_eq key e.0 then some e.1 else rest

unfoldable pub erase_session : UdpSessionKey → List (UdpSessionKey × ℕ) → List (UdpSessionKey × ℕ)
erase_session key [] = []
erase_session key (e ∷ es) =
    let rest = erase_session key es in if udp_session_key_eq key e.0 then rest else e ∷ rest

-- An entry of the list of pending sessions is unlinked by its place; a session stands there once.
unfoldable pub unlink : ℕ → List ℕ → List ℕ
unlink i [] = []
unlink i (j ∷ js) = let rest = unlink i js in if j == i then js else j ∷ rest
