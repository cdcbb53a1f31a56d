-- ===== src/Tcp/Machine.antt =====
-- The state machine of a flow: the moves that the states allow, and that the handlers make no others.
pub mod Receiving
pub mod Closing
pub mod Flushing
pub mod Handling
use tunio.Base.{◌∙◌, ◌≡◌, ◌≢◌, Bool, true, false}
use tunio.Tcp.Types.{
  TcpState, closed, syn_rcvd, syn_ack_sent, established, fin_wait_1, fin_wait_2, close_wait,
  last_ack, time_wait, Sys,
}

-- The state, whether the own FIN was sent, and whether the peer's FIN was received.
abbrev pub Control : Type 0
Control = TcpState × Bool × Bool

abbrev pub control : Sys → Control
control s = (s.flow.state, s.flow.fin_sent, s.flow.fin_received)

-- One move. The states of the side that closes first are entered from ESTABLISHED with a FIN of its own, sent
-- now, and those of the side that closes second with the peer's FIN; a FIN counts as acknowledged only after it
-- was sent. In the other states either FIN is noted and the state stays. A flow may be closed from everywhere.
pub data Move : Control → Control → Type 0 where
  approve : {a b : Bool} → Move (syn_rcvd, a, b) (syn_ack_sent, a, b)
  establish : {a b : Bool} → Move (syn_ack_sent, a, b) (established, a, b)
  close_first : {b : Bool} → Move (established, false, b) (fin_wait_1, true, b)
  peer_closes : {a b : Bool} → Move (established, a, b) (close_wait, a, true)
  close_second : {b : Bool} → Move (close_wait, false, b) (last_ack, true, b)
  fin_acknowledged : Move (fin_wait_1, true, false) (fin_wait_2, true, false)
  both_closed : Move (fin_wait_1, true, true) (time_wait, true, true)
  peer_closes_late : {a b : Bool} → Move (fin_wait_2, a, b) (time_wait, a, true)
  note_peer_fin :
      {st : TcpState} {a b : Bool}
      → st ≢ established
      → st ≢ fin_wait_2
      → Move (st, a, b) (st, a, true)
  note_own_fin :
      {st : TcpState} {a b : Bool}
      → st ≢ established
      → st ≢ close_wait
      → Move (st, a, b) (st, true, b)
  finish : {st : TcpState} {a b : Bool} → Move (st, a, b) (closed, a, b)

-- Any number of moves.
pub data Moves (c : Control) : Control → Type 0 where
  here : Moves c c
  next : {d e : Control} → Moves c d → Move d e → Moves c e

pub Moves-trans : {c d e : Control} → Moves c d → Moves d e → Moves c e
Moves-trans a here = a
Moves-trans a (next b m) = next (Moves-trans a b) m

-- What the state of a flow did between two points of a handler.
pub record Steps (s t : Sys) : Type 0 where
  pub moves : Moves (control s) (control t)

pub Steps-refl : (s : Sys) → Steps s s
Steps-refl s = record { moves = here }

pub Steps-trans : {s t u : Sys} → Steps s t → Steps t u → Steps s u
Steps-trans a b = record { moves = Moves-trans a.moves b.moves }

-- Neither the state nor what is known of the FINs changes.
abbrev pub SameState : Sys → Sys → Type 0
SameState s t =
    (t.flow.state ≡ s.flow.state)
    × (t.flow.fin_sent ≡ s.flow.fin_sent)
    × (t.flow.fin_received ≡ s.flow.fin_received)

pub SameState-trans : (s t u : Sys) → SameState s t → SameState t u → SameState s u
SameState-trans s t u a b = (b.0 ∙ a.0, b.1 ∙ a.1, b.2 ∙ a.2)

pub Steps-of_eq : {s t : Sys} → SameState s t → Steps s t
Steps-of_eq e = record { moves = rw (e.0, e.1, e.2) here }
