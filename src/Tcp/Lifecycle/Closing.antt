-- ===== src/Tcp/Lifecycle/Closing.antt =====
-- What `close_flow` leaves behind: an empty flow, a repaid budget, no entry in the tables.
use tunio.Base.{ℕ, ◌+◌, ◌≤◌, ◌≡◌, ◌≢◌, refl, ap, ◌∙◌, List, [], ◌∷◌, ◌++◌, false, none, arith}
use tunio.Account.{release}
use tunio.Account.Laws.{IsValid}
use tunio.Config.Keys.{FiveTuple, five_tuple_eq_iff}
use tunio.Tcp.Types.{ErrorCode, closed, Sys}
use tunio.Tcp.Output.{is_closed}
use tunio.Tcp.Lifecycle.{
  find_flow, erase_key, no_rx, no_ooo, drop_buffers, end_read, end_write, forget_pending,
  close_flow,
}

-- `t` is what closing `s` with `err` leaves: nothing queued or pending, each waiting operation completed
-- with the error, the read first, and every queued byte back in the budget.
pub record Cleared (s : Sys) (err : ErrorCode) (t : Sys) : Type 0 where
  pub state : t.flow.state ≡ closed
  pub rx : t.flow.rx ≡ no_rx
  pub ooo : t.flow.ooo ≡ no_ooo
  pub active_read : t.flow.active_read ≡ none
  pub active_write : t.flow.active_write ≡ none
  pub ack_timer : t.flow.ack_timer ≡ none
  pub waiting : t.flow.pending_accept ≡ false
  pub budget : t.eng.account.used + (s.flow.rx_bytes + s.flow.ooo_bytes) ≡ s.eng.account.used
  pub out :
      t.eng.out
      ≡ s.eng.out ++ (end_read s.flow.active_read err ++ end_write s.flow.active_write err)

drop_buffers_budget :
    (s : Sys)
    → IsValid s.eng.account
    → s.flow.rx_bytes + s.flow.ooo_bytes ≤ s.eng.account.used
    → (drop_buffers s).eng.account.used + (s.flow.rx_bytes + s.flow.ooo_bytes) ≡ s.eng.account.used
unfolding drop_buffers release
drop_buffers_budget s v h = ground arith

-- Closing an open flow, whose queued bytes are booked in a valid budget, clears it.
pub close_flow-Cleared :
    (s : Sys) (err : ErrorCode)
    → is_closed s.flow.state ≡ false
    → IsValid s.eng.account
    → s.flow.rx_bytes + s.flow.ooo_bytes ≤ s.eng.account.used
    → Cleared s err (close_flow s err)
unfolding close_flow forget_pending drop_buffers release
close_flow-Cleared s err o v h = ground arith

-- A flow is closed once: a second `close_flow` completes nothing again and gives nothing back twice.
pub close_flow_idempotent :
    (s : Sys) (err later : ErrorCode) → close_flow (close_flow s err) later ≡ close_flow s err
unfolding close_flow
close_flow_idempotent s err later = ground arith

-- Every key stands once in the table.
abbrev pub IsUnique : List (FiveTuple × ℕ) → Type 0
IsUnique [] = Unit {0}
IsUnique ((k, i) ∷ m) = (find_flow k m ≡ none) × IsUnique m

find_flow-erase_key :
    (k : FiveTuple) (m : List (FiveTuple × ℕ)) → IsUnique m → find_flow k (erase_key k m) ≡ none
unfolding find_flow erase_key
find_flow-erase_key k [] u = refl
find_flow-erase_key k ((j, i) ∷ m) u =
    ground (arith, find_flow-erase_key k m u.1, five_tuple_eq_iff j k)

find_flow-erase_key_other :
    (k l : FiveTuple) (m : List (FiveTuple × ℕ))
    → k ≢ l
    → find_flow l (erase_key k m) ≡ find_flow l m
unfolding find_flow erase_key
find_flow-erase_key_other k l [] d = refl
find_flow-erase_key_other k l ((j, i) ∷ m) d =
    ground (arith, find_flow-erase_key_other k l m d, five_tuple_eq_iff j k, five_tuple_eq_iff j l)

flows-close_flow :
    (s : Sys) (err : ErrorCode)
    → is_closed s.flow.state ≡ false
    → (close_flow s err).eng.flows ≡ erase_key s.flow.key s.eng.flows
unfolding close_flow forget_pending drop_buffers
flows-close_flow s err o = ground arith

-- In a table without double keys, a closed flow's key finds nothing any more, and every other key finds
-- what it found before.
pub close_flow-find_flow :
    (s : Sys) (err : ErrorCode)
    → is_closed s.flow.state ≡ false
    → IsUnique s.eng.flows
    → (find_flow s.flow.key (close_flow s err).eng.flows ≡ none)
      × ((l : FiveTuple)
          → s.flow.key ≢ l
          → find_flow l (close_flow s err).eng.flows ≡ find_flow l s.eng.flows)
close_flow-find_flow s err o u = (
  ap (find_flow s.flow.key) (flows-close_flow s err o)
      ∙ find_flow-erase_key s.flow.key s.eng.flows u,
  λ l d.
      ap (find_flow l) (flows-close_flow s err o)
      ∙ find_flow-erase_key_other s.flow.key l s.eng.flows d,
)
