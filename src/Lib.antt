-- ===== src/Lib.antt =====
-- tunio: a user-space TCP/IP stack behind a TUN device. Packets that the device reads are parsed and
-- posted to the TCP or the UDP engine; the engine keeps flows, answers with packets that it gives to the
-- device's writer, and completes the reads, writes and accepts of the application. Everything of one
-- engine runs on one strand, so that its handlers never run at the same time.
--
-- What is modelled, and where:
--   Seq       the ring order of include/tunio/detail/ip_headers.hpp (seq_gt, seq_ge);
--   Account   buffer_accountant of include/tunio/detail/tcp_engine.hpp and src/tcp_engine.cpp;
--   Checksum  the internet checksums of src/ip_packet.cpp (portable branch), under the source's names;
--   Headers   ip_header_size and build_ip_header of src/ip_packet.cpp; Headers/Fields is what a receiver reads;
--   Config    tun_config, engine_stats and the keys of include/tunio/tun_config.hpp;
--   Tcp       src/tcp_engine.cpp and include/tunio/detail/tcp_engine.hpp:
--     Types      the control block of a flow (tcp_flow) and the engine's state (tcp_engine);
--     Output     current_wnd, build_segment, send_segment and the acknowledgements;
--     Lifecycle  close_flow, abort_flow, send_fin, accept_flow, notify_accept;
--     Receive    deliver_data, flush_reads, handle_fin;
--     Ooo        ooo_append, the reordering cache as a list sorted by key;
--     Segments   handle_segment, handle_ack, handle_data, flush_ooo;
--     Writing    build_next_segment, send_window_probe, retransmit_unacked; Writing/Loop is write_loop;
--     Socket     the tcp_flow_* calls;
--     Dispatch   parse_syn_wscale, on_packet;
--     Upkeep     on_sweep, async_accept, cancel_accepts, close_all;
--     Machine    the state machine that the states of tcp_state form, and who moves along it;
--   Udp       src/udp_engine.cpp and include/tunio/detail/udp_engine.hpp:
--     Types      udp_session and the engine's state (udp_engine);
--     Delivery   on_packet, deliver_datagram, the read and accept calls, close_all;
--     Expiry     refresh_expiry, the expiry timer, remove_session;
--     Datagram   udp_build_datagram; Fragments is udp_write_ipv4_fragments;
--     Sending    udp_session_start_send and what it calls; Completion is how its writes end;
--   Writer    include/tunio/detail/tun_queue_writer.hpp: the chains of writes of the device's queues;
--     Pick       pick_tx_queue;
--   IpPacket  the public packet class of include/tunio/ip_packet.hpp and src/ip_packet.cpp:
--     Types      the packet, its buffer (packet_buffer) and the builder's state (builder_state);
--     Parse      do_parse, parse_transport, parse and the accessors of the transport layer;
--     Build      begin_ipv4 to begin_icmp, append_payload and finalize;
--   Facade    the way of a packet from the device to an engine in src/tunio.cpp (on_read, handle_packet),
--             and the echo replies (handle_icmp, handle_icmpv6);
--     Lifecycle  open, close, the read slots and the accept calls of src/tunio.cpp and
--                include/tunio/detail/tunio_impl.hpp; Lifecycle/Steps is a run of them;
--   Tests     sample values and one application of each result.
--
-- How the code is represented. An operation takes and returns a Sys: the flow that it works on and the
-- engine. What it hands to the outside (packets, completions, wake-ups) is appended to the engine's list
-- `out`, in order; a completion is posted in the source and runs later, so nothing runs in between. The
-- engine around the flows is a World, where a flow pointer is a number. write_loop is a step function
-- between its suspensions, and Wake says how a wait ended. Addresses and payloads are lists of bytes;
-- 32-bit arithmetic is written out with `% 2 ^ 32`, size_t is 64 bits wide. The random initial sequence
-- number and the clock are inputs. Ports in a key are numbers in host order. The UDP engine holds its sessions as
-- objects behind numbers, its heap of expiries as a list in the order of expiry, and its completions in
-- a list; the writer's list of effects has the writes that the device gets and the completions.
--
-- A packet object has the bytes of its buffer from data() on, and pointers into it are distances; a builder
-- call that throws ends a sequence with the packet as it left it. In the facade's life cycle an engine or a
-- writer is named by its generation, the device's answers are inputs, and what close() leaves to the strand
-- is a list of clean-ups that run in any order.
--
-- Fuel. deliver_loop removes a cache entry and merge_loop merges two in each round, so they get the number
-- of entries; scan_options moves on by at least a byte, so it gets the header length; resend sends at
-- least a byte per round, so it gets the number of bytes to send; cut takes at least a byte of the datagram
-- per round, so it gets its length.
--
-- Not modelled: of ip_packet the address accessors and error_message; the facade's error codes
-- and the exceptions of its handlers; the calls of the devices themselves, the SIMD branch of the checksum, and the bindings: input and output of the platform, or glue.
pub mod Base
pub mod Seq
pub mod Account
pub mod Checksum
pub mod Headers
pub mod Config
pub mod Tcp
pub mod IpPacket
pub mod Udp
pub mod Writer
pub mod Facade
pub mod Tests
