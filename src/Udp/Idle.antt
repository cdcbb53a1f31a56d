-- ===== src/Udp/Idle.antt =====
-- The expiry timer ends every session that was idle for its timeout.
use tunio.Base.{
  ◌-◌, ◌≢◌, ℕ, ◌≤◌, ◌≡◌, inl, inr, refl, sym, ap, ◌∙◌, List, [], ◌∷◌, ◌++◌, Bool, true, false, ◌&&◌,
  ◌||◌, not, ltb, leb, ◌==◌, arith, if_both, case_false, subst,
}
use tunio.Udp.Types.{Session, ExpiryEntry, UdpEngine, set_session, k_expiry_push_interval}
use tunio.Udp.Expiry.{
  is_stale, refresh_expiry, remove_session, expire, refresh_all, on_expiry_timer,
}
use tunio.Udp.Heap.{Ascending, HasDue, due_first, arm_expiry_timer-objects}

-- Session `i` is open and idle.
pub record IsIdle (u : UdpEngine) (i gen : ℕ) : Type 0 where
  pub opened : (u.objects i).closed ≡ false
  pub generation : (u.objects i).expiry_gen ≡ gen
  pub over : (u.objects i).expiry ≤ u.now

abbrev IsEnded : ℕ → UdpEngine → Type 0
IsEnded i u = (u.objects i).closed ≡ true

-- A session put in place `j` that is closed when the one before it was.
set_session-IsEnded :
    (u : UdpEngine) (i j : ℕ) (s : Session)
    → (i ≡ j → s.closed ≡ true)
    → IsEnded i u
    → IsEnded i (set_session u j s)
set_session-IsEnded u i j s h k =
    if_both (λ (t : Session). t.closed ≡ true) (i == j) (λ e. h (ground arith)) (λ e. k)

refresh_expiry-IsEnded : (u : UdpEngine) (i j : ℕ) → IsEnded i u → IsEnded i (refresh_expiry u j)
unfolding refresh_expiry
refresh_expiry-IsEnded u i j h =
    if_both (IsEnded i) (u.objects j).closed (λ e. h)
      (λ e.
        if_both (IsEnded i)
          ((u.objects j).heap_live
            && ltb (u.now - (u.objects j).last_heap_push) k_expiry_push_interval)
          (λ f. set_session-IsEnded u i j _ same h)
          (λ f.
            ap (λ (o : ℕ → Session). (o i).closed) (arm_expiry_timer-objects _)
            ∙ set_session-IsEnded u i j _ same h))
  where
    same : i ≡ j → (u.objects j).closed ≡ true
    same e = subst (λ k. IsEnded k u) e h

refresh_all-IsEnded :
    (u : UdpEngine) (is : List ℕ) (i : ℕ) → IsEnded i u → IsEnded i (refresh_all u is)
unfolding refresh_all
refresh_all-IsEnded u [] i h = h
refresh_all-IsEnded u (j ∷ js) i h =
    refresh_all-IsEnded (refresh_expiry u j) js i (refresh_expiry-IsEnded u i j h)

remove_session-IsEnded : (u : UdpEngine) (i j : ℕ) → IsEnded i u → IsEnded i (remove_session u j)
unfolding remove_session
remove_session-IsEnded u i j h =
    if_both (IsEnded i) (u.objects j).closed (λ e. h)
      (λ e. set_session-IsEnded u i j _ (λ f. refl) h)

expire-IsEnded :
    (u : UdpEngine) (heap : List ExpiryEntry) (extended : List ℕ) (i : ℕ)
    → IsEnded i u
    → IsEnded i (expire u heap extended).0
unfolding expire
expire-IsEnded u [] extended i h = h
expire-IsEnded u (e ∷ es) extended i h =
    if_both (λ (r : UdpEngine × List ℕ). IsEnded i r.0) (ltb u.now e.at) (λ a. h)
      (λ a.
        if_both (λ (r : UdpEngine × List ℕ). IsEnded i r.0) (is_stale u e)
          (λ b. expire-IsEnded u es extended i h)
          (λ b.
            if_both (λ (r : UdpEngine × List ℕ). IsEnded i r.0)
              (leb (u.objects e.session).expiry u.now)
              (λ c.
                expire-IsEnded (remove_session u e.session) es extended i
                  (remove_session-IsEnded u i e.session h))
              (λ c.
                expire-IsEnded (set_session u e.session _) es (extended ++ (e.session ∷ [])) i
                  (set_session-IsEnded u i e.session _ (λ f. subst (λ k. IsEnded k u) f h) h))))

pub removed_lem : (u : UdpEngine) (i : ℕ) → IsEnded i (remove_session u i)
unfolding remove_session
removed_lem u i =
    if_both (IsEnded i) (u.objects i).closed (λ e. e)
      (λ e. if_both (λ (t : Session). t.closed ≡ true) (i == i) (λ f. refl) (λ f. absurd (self f)))
  where
    self : (i == i) ≡ false → ⊥
    self f = ground arith

remove_session_now : (u : UdpEngine) (j : ℕ) → (remove_session u j).now ≡ u.now
unfolding remove_session
remove_session_now u j =
    if_both (λ (x : UdpEngine). x.now ≡ u.now) (u.objects j).closed (λ e. refl) (λ e. refl)

pub remove_session_other :
    (u : UdpEngine) (i j : ℕ) → i ≢ j → (remove_session u j).objects i ≡ u.objects i
unfolding remove_session
remove_session_other u i j n =
    if_both (λ (x : UdpEngine). x.objects i ≡ u.objects i) (u.objects j).closed (λ e. refl)
      (λ e.
        if_both (λ (t : Session). t ≡ u.objects i) (i == j) (λ f. absurd (n (ground arith)))
          (λ f. refl))

remove_session-IsIdle :
    (u : UdpEngine) (i j gen : ℕ) → i ≢ j → IsIdle u i gen → IsIdle (remove_session u j) i gen
remove_session-IsIdle u i j gen n v =
    let same = remove_session_other u i j n in
    record {
      opened = ap (λ (s : Session). s.closed) same ∙ v.opened;
      generation = ap (λ (s : Session). s.expiry_gen) same ∙ v.generation;
      over = omega (arith, ap (λ (s : Session). s.expiry) same, remove_session_now u j, v.over);
    }

-- Taking the mark off a session leaves every idle session idle.
unmarked-IsIdle :
    (u : UdpEngine) (i j gen : ℕ)
    → IsIdle u i gen
    → IsIdle (set_session u j (record (u.objects j) { heap_live = false })) i gen
unmarked-IsIdle u i j gen v =
    let d = if_both Dates (i == j) (λ e. here (ground arith)) (λ e. (refl, refl, refl)) in
    record {
      opened = d.0 ∙ v.opened;
      generation = d.1 ∙ v.generation;
      over = omega (arith, d.2, v.over);
    }
  where
    Dates : Session → Type 0
    Dates s =
        (s.closed ≡ (u.objects i).closed)
        × (s.expiry_gen ≡ (u.objects i).expiry_gen)
        × (s.expiry ≡ (u.objects i).expiry)

    here : i ≡ j → Dates (record (u.objects j) { heap_live = false })
    here e = (
      ap (λ k. (u.objects k).closed) (sym e),
      ap (λ k. (u.objects k).expiry_gen) (sym e),
      ap (λ k. (u.objects k).expiry) (sym e),
    )

fresh_lem :
    (u : UdpEngine) (e : ExpiryEntry) (i gen : ℕ)
    → e.session ≡ i
    → e.gen ≡ gen
    → IsIdle u i gen
    → (is_stale u e ≡ false) × ((u.objects e.session).expiry ≤ u.now)
fresh_lem u e i gen s g v = rw (s, g, v.opened, v.generation) (same gen, v.over)
  where
    same : (n : ℕ) → (false || not (n == n)) ≡ false
    same n = ground arith

expire_ends :
    (heap : List ExpiryEntry) (u : UdpEngine) (extended : List ℕ) (i gen : ℕ)
    → Ascending heap
    → HasDue u.now i gen heap
    → IsIdle u i gen
    → IsEnded i (expire u heap extended).0
unfolding expire
expire_ends [] u extended i gen a h v = absurd h
expire_ends (e ∷ es) u extended i gen a (inl h) v =
    let f = fresh_lem u e i gen h.1 h.2 v in
    if_both Result (ltb u.now e.at) (λ b. absurd (late b h.0))
      (λ b.
        if_both Result (is_stale u e) (λ c. absurd (case_false (sym c ∙ f.0)))
          (λ c.
            if_both Result (leb (u.objects e.session).expiry u.now)
              (λ d.
                expire-IsEnded (remove_session u e.session) es extended i (
                  subst (λ k. IsEnded k (remove_session u e.session)) h.1
                    (removed_lem u e.session)))
              (λ d. absurd (early d f.1))))
  where
    Result : UdpEngine × List ℕ → Type 0
    Result r = IsEnded i r.0

    late : ltb u.now e.at ≡ true → e.at ≤ u.now → ⊥
    late b l = ground arith

    early :
        leb (u.objects e.session).expiry u.now ≡ false → (u.objects e.session).expiry ≤ u.now → ⊥
    early b l = ground arith
expire_ends (e ∷ es) u extended i gen a (inr h) v =
    if_both Result (ltb u.now e.at) (λ b. absurd (late b (due_first u.now i gen e.at es a.0 h)))
      (λ b.
        if_both Result (is_stale u e) (λ c. expire_ends es u extended i gen a.1 h v)
          (λ c.
            if_both Result (leb (u.objects e.session).expiry u.now)
              (λ d. at_session (i == e.session) refl (λ n.
                expire_ends es (remove_session u e.session) extended i gen a.1
                  (subst (λ t. HasDue t i gen es) (sym (remove_session_now u e.session)) h)
                  (remove_session-IsIdle u i e.session gen n v)))
              (λ d.
                expire_ends es
                  (set_session u e.session (record (u.objects e.session) { heap_live = false }))
                  (extended ++ (e.session ∷ [])) i gen a.1 h
                  (unmarked-IsIdle u i e.session gen v))))
  where
    Result : UdpEngine × List ℕ → Type 0
    Result r = IsEnded i r.0

    late : ltb u.now e.at ≡ true → e.at ≤ u.now → ⊥
    late b l = ground arith

    found : (i == e.session) ≡ true → e.session ≡ i
    found q = ground arith

    lost : (i == e.session) ≡ false → i ≡ e.session → ⊥
    lost q f = ground arith

    at_session :
        (x : Bool)
        → (i == e.session) ≡ x
        → (i ≢ e.session → Result (expire (remove_session u e.session) es extended))
        → Result (expire (remove_session u e.session) es extended)
    at_session true q k =
        expire-IsEnded (remove_session u e.session) es extended i
          (subst (λ j. IsEnded j (remove_session u e.session)) (found q) (removed_lem u e.session))
    at_session false q k = k (λ f. absurd (lost q f))

-- When the expiry timer fires, with the heap in order: an open session whose time is over, and which
-- has a due entry of its present generation in the heap, in any place of it, is closed afterwards.
pub on_expiry_timer-IsEnded :
    (u : UdpEngine) (i gen : ℕ)
    → Ascending u.expiry_heap
    → HasDue u.now i gen u.expiry_heap
    → IsIdle u i gen
    → ((on_expiry_timer u).objects i).closed ≡ true
unfolding on_expiry_timer
on_expiry_timer-IsEnded u i gen a h v =
    let start : UdpEngine = record u { timer_waiting = false } in
    let r = expire start u.expiry_heap [] in
    ap (λ (o : ℕ → Session). (o i).closed) (arm_expiry_timer-objects (refresh_all r.0 r.1))
    ∙ refresh_all-IsEnded r.0 r.1 i (
        expire_ends u.expiry_heap start [] i gen a h
          (record { opened = v.opened; generation = v.generation; over = v.over }))
