-- ===== src/Tests/Sockets.antt =====
-- The theorems on writing and on the calls of a socket, applied.
use tunio.Base.{◌≡◌, refl, some, none, arith}
use tunio.Tcp.Types.{Sys, Segment}
use tunio.Tcp.Writing.{build_next_segment}
use tunio.Tcp.Writing.Chunks.{IsPlaced, Chunk, build_next_segment-Chunk}
use tunio.Tcp.Writing.Loop.{Writer, timed_out, window_wait, write_step}
use tunio.Tcp.Writing.Faults.{is_faulted, loses_operation, write_step_faults}
use tunio.Tests.Samples.{sample_flow, sample_sys, sample_write}

sample-IsPlaced : IsPlaced sample_write
sample-IsPlaced = record { total = refl; here = refl }

build_next_segment-Chunk_example :
    (t : Sys) × (g : Segment) × (build_next_segment sample_sys sample_write 2 ≡ (t, some g))
    × Chunk sample_sys sample_write 2 t g
build_next_segment-Chunk_example =
    build_next_segment-Chunk sample_sys sample_write 2 sample-IsPlaced (omega arith) (omega arith)
      (omega arith)

-- The write operation is gone while the coroutine waits for the window.
abbrev gone : Sys
gone = record sample_sys { flow = record sample_flow { active_write = none } }

abbrev waiting : Writer
waiting = record {
  point = window_wait 3;
  persist_interval = 5000;
  persist_probes = 0;
  rto = 200;
  retransmits = 0;
  last_una = 0;
}

write_step_faults_example :
    is_faulted (write_step timed_out (gone, waiting)).1.point
    ≡ loses_operation timed_out gone waiting
write_step_faults_example = write_step_faults timed_out gone waiting refl
