-- ===== src/Tcp/Socket/Moves.antt =====
-- The calls of a socket make moves of the state machine only.
use tunio.Base.{refl, ℕ, List, ◌||◌, ◌==◌, if_both}
use tunio.Tcp.Types.{Sys}
use tunio.Tcp.Output.{is_closed, emit}
use tunio.Tcp.Lifecycle.{drop_buffers, is_syn_rcvd}
use tunio.Tcp.Socket.{approve, is_some, start_read, start_write, abandoned, close}
use tunio.Tcp.Machine.{Steps, Steps-refl, Steps-trans, Steps-of_eq}
use tunio.Tcp.Machine.Closing.{Steps-of_same, abort_flow-Steps, send_fin-Steps, accept_flow-Steps}
use tunio.Tcp.Machine.Receiving.{flush_reads-Same}

approve-Steps : (s : Sys) → Steps s (approve s)
approve-Steps s =
    if_both (Steps s) (is_syn_rcvd s.flow.state) (λ _. accept_flow-Steps s) (λ _. Steps-refl s)

-- Whatever a read call does, the flow moves along the state machine.
pub start_read-Steps :
    (s : Sys) (buffers : List ℕ) (total handler : ℕ) → Steps s (start_read s buffers total handler)
unfolding start_read emit
start_read-Steps s buffers total handler =
    if_both (Steps s) (is_closed s.flow.state || (s.flow.app_closed || s.flow.rx_shutdown))
      (λ _. Steps-of_eq (refl, refl, refl))
      (λ _.
        if_both (Steps s) s.flow.rst (λ _. Steps-of_eq (refl, refl, refl))
          (λ _.
            if_both (Steps s) (total == 0)
              (λ _. Steps-trans (approve-Steps s) (Steps-of_eq (refl, refl, refl)))
              (λ _.
                if_both (Steps s) (is_some (approve s).flow.active_read)
                  (λ _. Steps-trans (approve-Steps s) (Steps-of_eq (refl, refl, refl)))
                  (λ _. Steps-trans (approve-Steps s) (
                    Steps-trans (Steps-of_eq (refl, refl, refl))
                      (Steps-of_same (flush_reads-Same _)))))))

-- Whatever a write call does, the flow moves along the state machine.
pub start_write-Steps :
    (s : Sys) (buffers : List (List ℕ)) (total handler : ℕ)
    → Steps s (start_write s buffers total handler)
unfolding start_write emit
start_write-Steps s buffers total handler =
    if_both (Steps s) (is_closed s.flow.state || (s.flow.app_closed || s.flow.fin_sent))
      (λ _. Steps-of_eq (refl, refl, refl))
      (λ _.
        if_both (Steps s) s.flow.rst (λ _. Steps-of_eq (refl, refl, refl))
          (λ _.
            if_both (Steps s) (total == 0)
              (λ _. Steps-trans (approve-Steps s) (Steps-of_eq (refl, refl, refl)))
              (λ _.
                if_both (Steps s) (is_some (approve s).flow.active_write)
                  (λ _. Steps-trans (approve-Steps s) (Steps-of_eq (refl, refl, refl)))
                  (λ _. Steps-trans (approve-Steps s) (Steps-of_eq (refl, refl, refl))))))

-- Whatever a close call does, the flow moves along the state machine.
pub close-Steps : (s : Sys) → Steps s (close s)
unfolding close drop_buffers
close-Steps s =
    if_both (Steps s) (is_closed s.flow.state || s.flow.app_closed) (λ _. Steps-refl s)
      (λ _.
        Steps-trans
          (Steps-trans {t = abandoned s} (Steps-of_eq (refl, refl, refl)) (
            if_both (Steps (abandoned s)) ((abandoned s).flow.snd_una == (abandoned s).flow.snd_nxt)
              (λ _. send_fin-Steps (abandoned s)) (λ _. abort_flow-Steps (abandoned s))))
          (Steps-of_eq (refl, refl, refl)))
