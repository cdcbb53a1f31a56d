-- ===== src/Tcp/Socket.antt =====
-- The calls of a socket: `tcp_flow_start_read` and `tcp_flow_start_write` of
-- include/tunio/detail/tcp_engine.hpp, and the other `tcp_flow_*` functions of src/tcp_engine.cpp. Each
-- is the body that runs on the engine's strand, for a flow whose engine is alive.
pub mod Moves
use tunio.Base.{
  ℕ, List, [], ◌∷◌, ◌++◌, Bool, true, false, ◌&&◌, ◌||◌, not, Option, none, some, ◌==◌,
  if◌then◌else◌,
}
use tunio.Tcp.Types.{
  ErrorCode, success, bad_descriptor, connection_reset, operation_aborted, no_buffer_space, ReadOp,
  WriteOp, Flow, Engine, Sys, Effect, read_done, write_done, accept_done, spawn_writer,
}
use tunio.Tcp.Output.{is_closed, emit}
use tunio.Tcp.Lifecycle.{
  accept_flow, reject_flow, abort_flow, send_fin, drop_buffers, close_channel, end_read, end_write,
  is_syn_rcvd,
}
use tunio.Tcp.Receive.{flush_reads}

abbrev pub is_some {ℓ} : {A : Type ℓ} → Option A → Bool
is_some none = false
is_some (some a) = true

-- Behind the checks: the first call on a flow that nobody approved approves it.
abbrev pub approve : Sys → Sys
approve s = if is_syn_rcvd s.flow.state then accept_flow s else s

abbrev pub finish_read : Sys → ℕ → ErrorCode → Sys
finish_read s handler err = emit s (read_done handler err 0 [])

-- One read at a time; an empty read succeeds at once.
unfoldable pub start_read : Sys → List ℕ → ℕ → ℕ → Sys
start_read s buffers total handler =
    let t = approve s in
    if is_closed s.flow.state || (s.flow.app_closed || s.flow.rx_shutdown)
    then finish_read s handler bad_descriptor
    else if s.flow.rst
    then finish_read s handler connection_reset
    else if total == 0
    then finish_read t handler success
    else if is_some t.flow.active_read
    then finish_read t handler no_buffer_space
    else flush_reads (record t {
      flow = record t.flow {
        active_read = some (record { buffers = buffers; total = total; handler = handler });
      };
    })

abbrev pub finish_write : Sys → ℕ → ErrorCode → Sys
finish_write s handler err = emit s (write_done handler err 0)

-- The operation at its first byte, with the coroutine that carries it out.
abbrev pub write_started : Sys → List (List ℕ) → ℕ → Bool → ℕ → Sys
write_started s buffers total implicit_accept handler =
    emit
      (record s {
        flow = record s.flow {
          active_write = some (record {
            buffers = buffers;
            total = total;
            offset = 0;
            buf_index = 0;
            buf_off = 0;
            start_seq = 0;
            implicit_accept = implicit_accept;
            handler = handler;
          });
        };
      })
      (spawn_writer s.flow.id)

-- One write at a time, and none behind the FIN.
unfoldable pub start_write : Sys → List (List ℕ) → ℕ → ℕ → Sys
start_write s buffers total handler =
    let t = approve s in
    if is_closed s.flow.state || (s.flow.app_closed || s.flow.fin_sent)
    then finish_write s handler bad_descriptor
    else if s.flow.rst
    then finish_write s handler connection_reset
    else if total == 0
    then finish_write t handler success
    else if is_some t.flow.active_write
    then finish_write t handler no_buffer_space
    else write_started t buffers total (is_syn_rcvd s.flow.state) handler

unfoldable pub shutdown_send : Sys → Sys
shutdown_send s = if is_closed s.flow.state || s.flow.app_closed then s else send_fin s

abbrev pub post : Sys → List Effect → Sys
post s effects = record s { eng = record s.eng { out = s.eng.out ++ effects } }

-- What is queued is dropped and a waiting read is aborted.
unfoldable pub shutdown_receive : Sys → Sys
shutdown_receive s =
    if is_closed s.flow.state
    then s
    else (post
        (drop_buffers
          (record s { flow = record s.flow { rx_shutdown = true; active_read = none } }))
        (end_read s.flow.active_read operation_aborted))

-- The flow without its operations and queues, as `tcp_flow_close` leaves it to the closing handshake.
abbrev pub abandoned : Sys → Sys
abandoned s = drop_buffers (record s {
  flow = record s.flow {
    app_closed = true;
    active_read = none;
    active_write = none;
    write_ch = close_channel s.flow.write_ch;
  };
})

-- With data unacknowledged a reset, else a FIN; then the aborted operations complete.
unfoldable pub close : Sys → Sys
close s =
    let t = abandoned s in
    if is_closed s.flow.state || s.flow.app_closed
    then s
    else (post (if t.flow.snd_una == t.flow.snd_nxt then send_fin t else abort_flow t) (
        end_read s.flow.active_read operation_aborted
        ++ end_write s.flow.active_write operation_aborted))

unfoldable pub reset : Sys → Sys
reset s = if is_closed s.flow.state || s.flow.app_closed then s else abort_flow s

unfoldable pub accept : Sys → Sys
accept s = accept_flow s

unfoldable pub reject : Sys → Sys
reject s = reject_flow s

-- `is_open`, for a flow whose engine is alive.
unfoldable pub is_open : Flow → Bool
is_open f = not (is_closed f.state) && (not f.app_closed && not f.rst)
