-- ===== src/Udp/Tracking.antt =====
-- Every open session stays in the heap of the expiry timer.
use tunio.Base.{
  ℕ, ◌+◌, ◌-◌, ◌≢◌, ◌≡◌, ◌⊎◌, inl, inr, refl, sym, ap, ◌∙◌, List, [], ◌∷◌, ◌++◌, Bool, true, false,
  ◌&&◌, ◌||◌, not, ltb, leb, ◌==◌, arith, if_both, if_no, case_false, subst, subst⁻¹, Bool-cases,
}
use tunio.Config.{incr}
use tunio.Udp.Types.{Session, ExpiryEntry, UdpEngine, set_session, k_expiry_push_interval}
use tunio.Udp.Expiry.{
  push_entry, is_stale, pop_stale, arm_top, arm_expiry_timer, refresh_expiry, remove_session,
  expire, refresh_all, on_expiry_timer,
}
use tunio.Udp.Heap.{arm_expiry_timer-objects}
use tunio.Udp.Idle.{removed_lem, remove_session_other}

-- An entry of session `i` in generation `gen`.
abbrev pub HasEntry : ℕ → ℕ → List ExpiryEntry → Type 0
HasEntry i gen [] = ⊥
HasEntry i gen (e ∷ es) = ((e.session ≡ i) × (e.gen ≡ gen)) ⊎ HasEntry i gen es

-- A session that is closed, or has its mark and an entry of its present generation.
abbrev pub InHeap : Session → List ExpiryEntry → ℕ → Type 0
InHeap s heap i = (s.closed ≡ true) ⊎ ((s.heap_live ≡ true) × HasEntry i s.expiry_gen heap)

abbrev pub IsTracked : UdpEngine → ℕ → Type 0
IsTracked u i = InHeap (u.objects i) u.expiry_heap i

push_entry-HasEntry :
    (e : ExpiryEntry) (i gen : ℕ) (heap : List ExpiryEntry)
    → HasEntry i gen heap
    → HasEntry i gen (push_entry e heap)
unfolding push_entry
push_entry-HasEntry e i gen [] h = absurd h
push_entry-HasEntry e i gen (x ∷ xs) h =
    if_both (HasEntry i gen) (ltb e.at x.at) (λ b. inr h)
      (λ b. elim h [ inl k ↦ inl k | inr k ↦ inr (push_entry-HasEntry e i gen xs k) ])

pushed_lem :
    (e : ExpiryEntry) (heap : List ExpiryEntry) → HasEntry e.session e.gen (push_entry e heap)
unfolding push_entry
pushed_lem e [] = inl (refl, refl)
pushed_lem e (x ∷ xs) =
    if_both (HasEntry e.session e.gen) (ltb e.at x.at) (λ b. inl (refl, refl))
      (λ b. inr (pushed_lem e xs))

-- The entry of an open session is not stale.
fresh_entry :
    (u : UdpEngine) (e : ExpiryEntry) (i : ℕ)
    → (u.objects i).closed ≡ false
    → e.session ≡ i
    → e.gen ≡ (u.objects i).expiry_gen
    → is_stale u e ≡ false
fresh_entry u e i o s g =
    ap (λ k. (u.objects k).closed || not ((u.objects k).expiry_gen == e.gen)) s ∙ kept _ _ _ o g
  where
    kept : (c : Bool) (a b : ℕ) → c ≡ false → b ≡ a → (c || not (a == b)) ≡ false
    kept c a b h k = ground arith

pop_stale-HasEntry :
    (u : UdpEngine) (i : ℕ) (heap : List ExpiryEntry)
    → (u.objects i).closed ≡ false
    → HasEntry i (u.objects i).expiry_gen heap
    → HasEntry i (u.objects i).expiry_gen (pop_stale u heap)
unfolding pop_stale
pop_stale-HasEntry u i [] o h = absurd h
pop_stale-HasEntry u i (e ∷ es) o (inl h) =
    subst⁻¹ (HasEntry i (u.objects i).expiry_gen)
      (if_no (is_stale u e) (pop_stale u es) (e ∷ es) (fresh_entry u e i o h.0 h.1)) (inl h)
pop_stale-HasEntry u i (e ∷ es) o (inr h) =
    if_both (HasEntry i (u.objects i).expiry_gen) (is_stale u e)
      (λ b. pop_stale-HasEntry u i es o h) (λ b. inr h)

arm_top-IsTracked :
    (u : UdpEngine) (heap : List ExpiryEntry) (i : ℕ) → IsTracked u i → IsTracked (arm_top u heap) i
unfolding arm_top
arm_top-IsTracked u [] i h = h
arm_top-IsTracked u (e ∷ es) i h =
    if_both (λ x. IsTracked x i) (u.timer_waiting && leb u.armed_target e.at) (λ b. h) (λ b. h)

arm_expiry_timer-IsTracked :
    (u : UdpEngine) (i : ℕ) → IsTracked u i → IsTracked (arm_expiry_timer u) i
unfolding arm_expiry_timer
arm_expiry_timer-IsTracked u i h = arm_top-IsTracked _ _ i (elim (Bool-cases (u.objects i).closed) [
  | inl c ↦ inl c
  | inr o ↦ elim h [ inl c ↦ inl c | inr k ↦ inr (k.0, pop_stale-HasEntry u i u.expiry_heap o k.1) ]
])

-- A session that is put in place `j`.
pub put_lem :
    (u : UdpEngine) (P : Session → Type 0) (i j : ℕ) (s : Session)
    → (i ≡ j → P s)
    → (i ≢ j → P (u.objects i))
    → P ((set_session u j s).objects i)
put_lem u P i j s h k = if_both P (i == j) (λ e. h (ground arith)) (λ e. k (different i j e))
  where
    different : (a b : ℕ) → (a == b) ≡ false → a ≢ b
    different a b h = ground arith

push_entry-InHeap :
    (s : Session) (e : ExpiryEntry) (heap : List ExpiryEntry) (i : ℕ)
    → InHeap s heap i
    → InHeap s (push_entry e heap) i
push_entry-InHeap s e heap i (inl c) = inl c
push_entry-InHeap s e heap i (inr h) = inr (h.0, push_entry-HasEntry e i s.expiry_gen heap h.1)

-- A session without its mark.
abbrev pub Unmarked : Session → Type 0
Unmarked s = s.heap_live ≡ false

-- The entry that a refresh pushes.
abbrev entry_of : UdpEngine → ℕ → ExpiryEntry
entry_of u i = record {
  at = u.now + (u.objects i).timeout;
  gen = incr (u.objects i).expiry_gen;
  session = i;
}

left_true : (a b : Bool) → (a && b) ≡ true → a ≡ true
left_true a b h = ground arith

-- A refreshed session is tracked, also when it had lost its mark.
pub refresh_expiry_self :
    (u : UdpEngine) (i : ℕ)
    → IsTracked u i ⊎ Unmarked (u.objects i)
    → IsTracked (refresh_expiry u i) i
unfolding refresh_expiry
refresh_expiry_self u i h =
    if_both (λ x. IsTracked x i) (u.objects i).closed (λ c. inl c)
      (λ c.
        if_both (λ x. IsTracked x i)
          ((u.objects i).heap_live
            && ltb (u.now - (u.objects i).last_heap_push) k_expiry_push_interval)
          (λ b.
            put_lem u (λ s. InHeap s u.expiry_heap i) i i _ (λ e. marked b h)
              (λ n. absurd (n refl)))
          (λ b. arm_expiry_timer-IsTracked _ i (
            put_lem u (λ s. InHeap s (push_entry (entry_of u i) u.expiry_heap) i) i i _
              (λ e. inr (refl, pushed_lem (entry_of u i) u.expiry_heap)) (λ n. absurd (n refl)))))
  where
    marked :
        ((u.objects i).heap_live
            && ltb (u.now - (u.objects i).last_heap_push) k_expiry_push_interval)
          ≡ true
        → IsTracked u i ⊎ Unmarked (u.objects i)
        → IsTracked u i
    marked b (inl h) = h
    marked b (inr n) = absurd (case_false (sym (left_true _ _ b) ∙ n))

refresh_expiry_other :
    (u : UdpEngine) (i j : ℕ) → i ≢ j → (refresh_expiry u j).objects i ≡ u.objects i
unfolding refresh_expiry
refresh_expiry_other u i j n =
    if_both (λ (x : UdpEngine). x.objects i ≡ u.objects i) (u.objects j).closed (λ c. refl)
      (λ c.
        if_both (λ (x : UdpEngine). x.objects i ≡ u.objects i)
          ((u.objects j).heap_live
            && ltb (u.now - (u.objects j).last_heap_push) k_expiry_push_interval)
          (λ b. put_lem u (λ s. s ≡ u.objects i) i j _ (λ e. absurd (n e)) (λ m. refl))
          (λ b.
            ap (λ (o : ℕ → Session). o i) (arm_expiry_timer-objects _)
            ∙ put_lem u (λ s. s ≡ u.objects i) i j _ (λ e. absurd (n e)) (λ m. refl)))

pub same_or_not : (i j : ℕ) → (i ≡ j) ⊎ (i ≢ j)
same_or_not i j = ground arith

-- No refresh loses a session.
pub refresh_expiry-IsTracked :
    (u : UdpEngine) (i j : ℕ) → IsTracked u i → IsTracked (refresh_expiry u j) i
unfolding refresh_expiry
refresh_expiry-IsTracked u i j h = elim (same_or_not i j) [
  | inl e ↦ subst (λ k. IsTracked (refresh_expiry u k) i) e (refresh_expiry_self u i (inl h))
  | inr n ↦
      if_both (λ x. IsTracked x i) (u.objects j).closed (λ c. h)
        (λ c.
          if_both (λ x. IsTracked x i)
            ((u.objects j).heap_live
              && ltb (u.now - (u.objects j).last_heap_push) k_expiry_push_interval)
            (λ b. put_lem u (λ s. InHeap s u.expiry_heap i) i j _ (λ e. absurd (n e)) (λ m. h))
            (λ b. arm_expiry_timer-IsTracked _ i (
              put_lem u (λ s. InHeap s (push_entry (entry_of u j) u.expiry_heap) i) i j _
                (λ e. absurd (n e))
                (λ m. push_entry-InHeap (u.objects i) (entry_of u j) u.expiry_heap i h))))
]

abbrev In : ℕ → List ℕ → Type 0
In i [] = ⊥
In i (j ∷ js) = (j ≡ i) ⊎ In i js

In-append_left : (i : ℕ) (js ks : List ℕ) → In i js → In i (js ++ ks)
In-append_left i [] ks h = absurd h
In-append_left i (j ∷ js) ks (inl h) = inl h
In-append_left i (j ∷ js) ks (inr h) = inr (In-append_left i js ks h)

In-last : (i : ℕ) (js : List ℕ) → In i (js ++ (i ∷ []))
In-last i [] = inl refl
In-last i (j ∷ js) = inr (In-last i js)

-- While the timer runs through the heap: tracked, or without the mark and waiting for its refresh.
abbrev Held : Session → List ExpiryEntry → List ℕ → ℕ → Type 0
Held s heap extended i = InHeap s heap i ⊎ (Unmarked s × In i extended)

refresh_all-IsTracked :
    (u : UdpEngine) (js : List ℕ) (i : ℕ)
    → Held (u.objects i) u.expiry_heap js i
    → IsTracked (refresh_all u js) i
unfolding refresh_all
refresh_all-IsTracked u [] i (inl h) = h
refresh_all-IsTracked u [] i (inr h) = absurd h.1
refresh_all-IsTracked u (j ∷ js) i h =
    refresh_all-IsTracked (refresh_expiry u j) js i (elim (same_or_not i j) [
      | inl e ↦
          inl (subst (λ k. IsTracked (refresh_expiry u k) i) e (refresh_expiry_self u i (loose h)))
      | inr n ↦ elim h [
        | inl t ↦ inl (refresh_expiry-IsTracked u i j t)
        | inr t ↦ inr (subst⁻¹ Unmarked (refresh_expiry_other u i j n) t.0, later n t.1)
      ]
    ])
  where
    loose : Held (u.objects i) u.expiry_heap (j ∷ js) i → IsTracked u i ⊎ Unmarked (u.objects i)
    loose (inl t) = inl t
    loose (inr t) = inr t.0

    later : i ≢ j → In i (j ∷ js) → In i js
    later n (inl e) = absurd (n (sym e))
    later n (inr t) = t

-- The loop drops an entry that is stale, or of another session.
drop_stale :
    (u : UdpEngine) (e : ExpiryEntry) (es : List ExpiryEntry) (i : ℕ)
    → is_stale u e ≡ true
    → InHeap (u.objects i) (e ∷ es) i
    → InHeap (u.objects i) es i
drop_stale u e es i b (inl c) = inl c
drop_stale u e es i b (inr (m, inr h)) = inr (m, h)
drop_stale u e es i b (inr (m, inl h)) = elim (Bool-cases (u.objects i).closed) [
  | inl c ↦ inl c
  | inr o ↦ absurd (case_false (sym b ∙ fresh_entry u e i o h.0 h.1))
]

drop_other :
    (s : Session) (e : ExpiryEntry) (es : List ExpiryEntry) (i : ℕ)
    → i ≢ e.session
    → InHeap s (e ∷ es) i
    → InHeap s es i
drop_other s e es i n (inl c) = inl c
drop_other s e es i n (inr (m, inr h)) = inr (m, h)
drop_other s e es i n (inr (m, inl h)) = absurd (n (sym h.0))

Held-map :
    (s : Session) (heap later : List ExpiryEntry) (js ks : List ℕ) (i : ℕ)
    → (InHeap s heap i → InHeap s later i)
    → (In i js → In i ks)
    → Held s heap js i
    → Held s later ks i
Held-map s heap later js ks i f g (inl t) = inl (f t)
Held-map s heap later js ks i f g (inr t) = inr (t.0, g t.1)

expire-Held :
    (u : UdpEngine) (heap : List ExpiryEntry) (extended : List ℕ) (i : ℕ)
    → Held (u.objects i) heap extended i
    → (let r = expire u heap extended in Held (r.0.objects i) r.0.expiry_heap r.1 i)
unfolding expire
expire-Held u [] extended i h = h
expire-Held u (e ∷ es) extended i h =
    if_both Result (ltb u.now e.at) (λ a. h)
      (λ a.
        if_both Result (is_stale u e)
          (λ b. expire-Held u es extended i (
            Held-map (u.objects i) (e ∷ es) es extended extended i (drop_stale u e es i b) (λ t. t)
              h))
          (λ b.
            if_both Result (leb (u.objects e.session).expiry u.now)
              (λ c.
                expire-Held (remove_session u e.session) es extended i
                  (elim (same_or_not i e.session) [
                    | inl f ↦ inl (
                        inl (
                          subst (λ k. ((remove_session u k).objects i).closed ≡ true) f
                            (removed_lem u i)))
                    | inr n ↦
                        subst⁻¹ (λ s. Held s es extended i) (remove_session_other u i e.session n)
                          (Held-map (u.objects i) (e ∷ es) es extended extended i
                            (drop_other (u.objects i) e es i n) (λ t. t) h)
                  ]))
              (λ c. expire-Held (set_session u e.session _) es (extended ++ (e.session ∷ [])) i (
                put_lem u (λ s. Held s es (extended ++ (e.session ∷ [])) i) i e.session _
                  (λ f. inr (refl, subst (λ k. In i (extended ++ (k ∷ []))) f (In-last i extended)))
                  (λ n.
                    Held-map (u.objects i) (e ∷ es) es extended (extended ++ (e.session ∷ [])) i
                      (drop_other (u.objects i) e es i n)
                      (In-append_left i extended (e.session ∷ [])) h)))))
  where
    Result : UdpEngine × List ℕ → Type 0
    Result r = Held (r.0.objects i) r.0.expiry_heap r.1 i

-- A session that is closed, or is marked and has an entry of its present generation in the heap, is so after the
-- expiry timer has fired as well: the timer closes it, keeps its entry, or pushes a new one, whatever the heap
-- holds. So an open session never drops out of the heap that the timer works through.
pub on_expiry_timer-IsTracked :
    (u : UdpEngine) (i : ℕ) → IsTracked u i → IsTracked (on_expiry_timer u) i
unfolding on_expiry_timer
on_expiry_timer-IsTracked u i h =
    let start : UdpEngine = record u { timer_waiting = false } in
    let r = expire start u.expiry_heap [] in
    arm_expiry_timer-IsTracked _ i
      (refresh_all-IsTracked r.0 r.1 i (expire-Held start u.expiry_heap [] i (inl h)))
