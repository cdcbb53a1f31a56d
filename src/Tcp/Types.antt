-- ===== src/Tcp/Types.antt =====
-- include/tunio/detail/tcp_engine.hpp: the control block of a flow and the engine's state.
use tunio.Base.{ℕ, Bool, List, Option}
use tunio.Config.{Config, Stats}
use tunio.Config.Keys.{FiveTuple}
use tunio.Account.{Account}

pub data TcpState : Type 0 where
  closed syn_rcvd syn_ack_sent established fin_wait_1 fin_wait_2 close_wait last_ack time_wait :
      TcpState

-- The error codes that the completion handlers get.
pub data ErrorCode : Type 0 where
  success eof connection_reset operation_aborted bad_descriptor no_buffer_space : ErrorCode

-- `rx_data`, `rx_head`, `rx_bytes`: the bytes received in order and not yet read.
pub record RxQueue : Type 0 where
  pub rx_data : List ℕ
  pub rx_head : ℕ
  pub rx_bytes : ℕ

pub record OooSegment : Type 0 where
  pub bytes : List ℕ
  pub fin : Bool

-- `ooo_cache`, a map sorted by the key as a number, with its two counters.
pub record OooCache : Type 0 where
  pub segments : List (ℕ × OooSegment)
  pub ooo_bytes : ℕ
  pub ooo_count : ℕ

-- The user's buffers by their sizes; a handler by its number.
pub record ReadOp : Type 0 where
  pub buffers : List ℕ
  pub total : ℕ
  pub handler : ℕ

-- The user's buffers by their contents.
pub record WriteOp : Type 0 where
  pub buffers : List (List ℕ)
  pub total : ℕ
  pub offset : ℕ
  pub buf_index : ℕ
  pub buf_off : ℕ
  pub start_seq : ℕ
  pub implicit_accept : Bool
  pub handler : ℕ

-- `write_ch`: not yet made, open, closed.
pub data Channel : Type 0 where
  absent opened shut : Channel

-- `tcp_flow`. `id` is the identity of the object behind a `tcp_flow_ptr`; `ack_timer` is the time at
-- which a pending delayed acknowledgement fires.
pub record Flow : Type 0 where
  pub id : ℕ
  pub key : FiveTuple
  pub snd_nxt : ℕ
  pub snd_una : ℕ
  pub rcv_nxt : ℕ
  pub iss : ℕ
  pub irs : ℕ
  pub state : TcpState
  pub peer_wnd : ℕ
  pub snd_wnd_scale : ℕ
  pub rcv_wnd_scale : ℕ
  pub wscale_ok : Bool
  pub last_wnd_advertised : ℕ
  pub fin_sent : Bool
  pub fin_received : Bool
  pub fin_pending : Bool
  pub rst : Bool
  pub app_closed : Bool
  pub rx_shutdown : Bool
  pub accepted : Bool
  pub pending_accept : Bool
  pub probe_in_flight : Bool
  pub created_at : ℕ
  pub destroy_at : ℕ
  pub close_started_at : ℕ
  pub ack_pending : Bool
  pub ack_timer : Option ℕ
  pub rx : RxQueue
  pub open rx use *
  pub ooo : OooCache
  pub open ooo use *
  pub active_read : Option ReadOp
  pub active_write : Option WriteOp
  pub write_ch : Channel

-- The fields that `build_segment` puts into a packet.
pub record Segment : Type 0 where
  pub key : FiveTuple
  pub ip_id : ℕ
  pub seq : ℕ
  pub ack : ℕ
  pub flags : ℕ
  pub window : ℕ
  pub with_mss : Bool
  pub mss : ℕ
  pub wscale_ok : Bool
  pub payload : List ℕ

-- What an operation hands to the outside: packets to the writer, completions to the handlers. A read
-- completes with a count and the bytes copied into its buffers.
pub data Effect : Type 0 where
  send : Segment → Effect
  read_done : ℕ → ErrorCode → ℕ → List ℕ → Effect
  write_done : ℕ → ErrorCode → ℕ → Effect
  accept_done : ℕ → ErrorCode → Option ℕ → Effect
  signal_writer : ℕ → Effect
  spawn_writer : ℕ → Effect

-- `tcp_engine`. `flows` and `pending_flows` hold flows by identity; `now` is the steady clock, and
-- `out` collects the effects, oldest first.
pub record Engine : Type 0 where
  pub cfg : Config
  pub account : Account
  pub stats : Stats
  pub flows : List (FiveTuple × ℕ)
  pub pending_accepts : List ℕ
  pub pending_flows : List ℕ
  pub ip_id : ℕ
  pub now : ℕ
  pub out : List Effect

-- An operation on one flow sees that flow and the engine.
pub record Sys : Type 0 where
  pub flow : Flow
  pub eng : Engine
