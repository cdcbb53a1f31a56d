-- ===== src/Tests/Flows.antt =====
-- The theorems on the receive path, the state machine, the window and the life of a flow, applied.
use tunio.Base.{◌+◌, ◌-◌, ◌≤◌, ◌<◌, ◌≡◌, ◌≢◌, ◌⊎◌, refl, [], arith, none}
use tunio.Config.Keys.{FiveTuple}
use tunio.Tcp.Types.{Sys, success, connection_reset, time_wait}
use tunio.Tcp.Output.{current_wnd, fixed_rcv_wnd, mss}
use tunio.Tcp.Output.Window.{current_wnd_bounds}
use tunio.Tcp.Lifecycle.{close_flow, find_flow}
use tunio.Tcp.Lifecycle.Closing.{Cleared, close_flow-Cleared, close_flow-find_flow}
use tunio.Tcp.Receive.{flush_reads, deliver_data}
use tunio.Tcp.Receive.Books.{Books, Kept, deliver_data-Kept}
use tunio.Tcp.Receive.Reassembly.{SameStream, flush_reads-SameStream}
use tunio.Tcp.Receive.Delivery.{HasRoom, Grown, deliver_data-Grown}
use tunio.Tcp.Dispatch.{World}
use tunio.Tests.Samples.{sample_key, sample_flow, sample_engine, sample_sys, sample_bytes}

sample-Books : Books sample_sys
sample-Books = record {
  budget = record { within = omega arith; small = omega arith };
  covered = omega arith;
  queued = refl;
  cached = refl;
  rx_bound = omega arith;
  ooo_bound = omega arith;
}

deliver_data-Kept_example : Kept sample_sys (deliver_data sample_sys sample_bytes)
deliver_data-Kept_example = deliver_data-Kept {s = sample_sys} sample_bytes sample-Books

flush_reads-SameStream_example : SameStream sample_sys (flush_reads sample_sys)
flush_reads-SameStream_example = flush_reads-SameStream sample_sys

deliver_data-Grown_example :
    (HasRoom sample_sys 5 → Grown sample_sys sample_bytes (deliver_data sample_sys sample_bytes))
    × ((HasRoom sample_sys 5 → ⊥) → SameStream sample_sys (deliver_data sample_sys sample_bytes))
deliver_data-Grown_example =
    deliver_data-Grown sample_sys sample_bytes sample-Books tt refl (omega arith)

current_wnd_bounds_example :
    (current_wnd sample_sys ≤ fixed_rcv_wnd)
    × (current_wnd sample_sys ≤ 262144 - (3 + 0))
    × (sample_engine.account.limit ≢ 0 → current_wnd sample_sys ≤ 67108864 - 3)
    × ((current_wnd sample_sys ≡ 0)
        ⊎ (mss sample_engine.cfg sample_key.family ≤ current_wnd sample_sys))
current_wnd_bounds_example = current_wnd_bounds sample_sys (omega arith)

-- A budget of 4 GiB of which nothing is used.
abbrev roomy : Sys
roomy = record sample_sys {
  eng = record sample_engine { account = record { limit = 4294967296; used = 0 } };
}

mss_positive : 0 < mss sample_engine.cfg sample_key.family
unfolding mss
mss_positive = omega arith

close_flow-Cleared_example :
    Cleared sample_sys connection_reset (close_flow sample_sys connection_reset)
close_flow-Cleared_example =
    close_flow-Cleared sample_sys connection_reset refl sample-Books.budget (omega arith)

close_flow-find_flow_example :
    (find_flow sample_key (close_flow sample_sys success).eng.flows ≡ none)
    × ((l : FiveTuple)
        → sample_key ≢ l
        → find_flow l (close_flow sample_sys success).eng.flows ≡ find_flow l sample_engine.flows)
close_flow-find_flow_example = close_flow-find_flow sample_sys success refl (refl_of_empty, tt)
  where
    refl_of_empty : find_flow sample_key [] ≡ none
    refl_of_empty = unfold find_flow in refl

-- A flow whose time in TIME_WAIT is over.
abbrev tired : World
tired = record {
  eng = sample_engine;
  objects = λ i. record sample_flow { state = time_wait; destroy_at = 40000 };
  fresh = 1;
}
