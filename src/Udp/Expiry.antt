-- ===== src/Udp/Expiry.antt =====
-- src/udp_engine.cpp: the expiry of idle sessions and the end of a session.
use tunio.Base.{
  ℕ, ◌+◌, ◌-◌, List, [], ◌∷◌, ◌++◌, Bool, true, false, ◌&&◌, ◌||◌, not, none, ltb, leb, ◌==◌,
  if◌then◌else◌,
}
use tunio.Config.{incr, decr}
use tunio.Account.{release}
use tunio.Udp.Types.{
  Session, ReadOp, operation_aborted, read_done, UdpEffect, ExpiryEntry, UdpEngine, set_session,
  erase_session, unlink, k_expiry_push_interval,
}

-- `push_heap`
unfoldable pub push_entry : ExpiryEntry → List ExpiryEntry → List ExpiryEntry
push_entry e [] = e ∷ []
push_entry e (x ∷ xs) = let rest = push_entry e xs in if ltb e.at x.at then e ∷ x ∷ xs else x ∷ rest

-- Its session is closed or was pushed again.
abbrev pub is_stale : UdpEngine → ExpiryEntry → Bool
is_stale u e = (u.objects e.session).closed || not ((u.objects e.session).expiry_gen == e.gen)

-- The loop at the start of `arm_expiry_timer`.
unfoldable pub pop_stale : UdpEngine → List ExpiryEntry → List ExpiryEntry
pop_stale u [] = []
pop_stale u (e ∷ es) = let rest = pop_stale u es in if is_stale u e then rest else e ∷ es

-- The rest of it, by the top of the heap.
unfoldable pub arm_top : UdpEngine → List ExpiryEntry → UdpEngine
arm_top u [] = u
arm_top u (e ∷ es) =
    if u.timer_waiting && leb u.armed_target e.at
    then u
    else record u { wait_gen = incr u.wait_gen; armed_target = e.at; timer_waiting = true }

unfoldable pub arm_expiry_timer : UdpEngine → UdpEngine
arm_expiry_timer u =
    let heap = pop_stale u u.expiry_heap in arm_top (record u { expiry_heap = heap }) heap

unfoldable pub refresh_expiry : UdpEngine → ℕ → UdpEngine
refresh_expiry u i =
    let s = u.objects i in
    let later : Session = record s { expiry = u.now + s.timeout } in
    let pushed : Session = record later {
      expiry_gen = incr s.expiry_gen;
      heap_live = true;
      last_heap_push = u.now;
    } in
    if s.closed
    then u
    else if s.heap_live && ltb (u.now - s.last_heap_push) k_expiry_push_interval
    then set_session u i later
    else arm_expiry_timer (record (set_session u i pushed) {
      expiry_heap =
          push_entry (record { at = pushed.expiry; gen = pushed.expiry_gen; session = i })
            u.expiry_heap;
    })

-- The completions of the reads of a session that ends.
unfoldable pub abort_reads : List ReadOp → List UdpEffect
abort_reads [] = []
abort_reads (op ∷ ops) = read_done op.handler operation_aborted [] none ∷ abort_reads ops

unfoldable pub remove_session : UdpEngine → ℕ → UdpEngine
remove_session u i =
    let s = u.objects i in
    let ended : Session = record s {
      closed = true;
      pending_accept = false;
      rx_datagrams = [];
      rx_bytes = 0;
      pending_reads = [];
    } in
    if s.closed then u else record (set_session u i ended) {
      sessions = erase_session s.key u.sessions;
      stats = record u.stats { udp_sessions = decr u.stats.udp_sessions };
      pending_new_sessions =
          if s.pending_accept then unlink i u.pending_new_sessions else u.pending_new_sessions;
      account = if ltb 0 s.rx_bytes then release u.account s.rx_bytes else u.account;
      out = u.out ++ abort_reads s.pending_reads;
    }

-- The loop of `on_expiry_timer` over the heap: the engine after it, and the sessions that were extended.
unfoldable pub expire : UdpEngine → List ExpiryEntry → List ℕ → UdpEngine × List ℕ
expire u [] extended = (record u { expiry_heap = [] }, extended)
expire u (e ∷ es) extended =
    let s = u.objects e.session in
    let passed = expire u es extended in
    let removed = expire (remove_session u e.session) es extended in
    let kept =
      expire (set_session u e.session (record s { heap_live = false })) es
        (extended ++ (e.session ∷ [])) in
    if ltb u.now e.at
    then (record u { expiry_heap = e ∷ es }, extended)
    else if is_stale u e
    then passed
    else if leb s.expiry u.now
    then removed
    else kept

unfoldable pub refresh_all : UdpEngine → List ℕ → UdpEngine
refresh_all u [] = u
refresh_all u (i ∷ is) = refresh_all (refresh_expiry u i) is

-- `on_expiry_timer`, for a wait that ends by itself.
unfoldable pub on_expiry_timer : UdpEngine → UdpEngine
on_expiry_timer u =
    let (expired, extended) = expire (record u { timer_waiting = false }) u.expiry_heap [] in
    arm_expiry_timer (refresh_all expired extended)

unfoldable pub set_timeout : UdpEngine → ℕ → ℕ → UdpEngine
set_timeout u i timeout =
    if (u.objects i).closed
    then u
    else refresh_expiry (set_session u i (record (u.objects i) { timeout = timeout })) i
