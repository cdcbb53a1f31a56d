-- ===== src/Udp/Heap.antt =====
-- The heap of expiries as a list in order, and the rearming of its timer.
use tunio.Base.{
  ℕ, ◌≤◌, ◌≡◌, ◌⊎◌, inl, inr, refl, List, [], ◌∷◌, true, false, ◌&&◌, ltb, leb, arith, if_both,
}
use tunio.Udp.Types.{ExpiryEntry, UdpEngine}
use tunio.Udp.Expiry.{push_entry, pop_stale, arm_top, arm_expiry_timer}

-- An order that the heap keeps, as a list.
abbrev pub NotBefore : ℕ → List ExpiryEntry → Type 0
NotBefore t [] = Unit {0}
NotBefore t (e ∷ es) = (t ≤ e.at) × NotBefore t es

abbrev pub Ascending : List ExpiryEntry → Type 0
Ascending [] = Unit {0}
Ascending (e ∷ es) = NotBefore e.at es × Ascending es

-- An entry for session `i` of generation `gen`, which is due.
abbrev pub HasDue : ℕ → ℕ → ℕ → List ExpiryEntry → Type 0
HasDue now i gen [] = ⊥
HasDue now i gen (e ∷ es) = ((e.at ≤ now) × (e.session ≡ i) × (e.gen ≡ gen)) ⊎ HasDue now i gen es

-- Only a due entry stands in front of a due one.
pub due_first :
    (now i gen t : ℕ) (es : List ExpiryEntry) → NotBefore t es → HasDue now i gen es → t ≤ now
due_first now i gen t [] b h = absurd h
due_first now i gen t (e ∷ es) b (inl h) = omega (arith, b.0, h.0)
due_first now i gen t (e ∷ es) b (inr h) = due_first now i gen t es b.1 h

NotBefore-push_entry :
    (t : ℕ) (e : ExpiryEntry) (heap : List ExpiryEntry)
    → t ≤ e.at
    → NotBefore t heap
    → NotBefore t (push_entry e heap)
unfolding push_entry
NotBefore-push_entry t e [] h k = (h, tt)
NotBefore-push_entry t e (x ∷ xs) h k =
    if_both (NotBefore t) (ltb e.at x.at) (λ f. (h, k))
      (λ f. (k.0, NotBefore-push_entry t e xs h k.1))

NotBefore-of_le : (s t : ℕ) (heap : List ExpiryEntry) → s ≤ t → NotBefore t heap → NotBefore s heap
NotBefore-of_le s t [] h k = tt
NotBefore-of_le s t (e ∷ es) h k = (omega (arith, k.0), NotBefore-of_le s t es h k.1)

-- A push keeps the order of the heap.
pub push_entry-Ascending :
    (e : ExpiryEntry) (heap : List ExpiryEntry) → Ascending heap → Ascending (push_entry e heap)
unfolding push_entry
push_entry-Ascending e [] h = (tt, tt)
push_entry-Ascending e (x ∷ xs) h =
    if_both Ascending (ltb e.at x.at)
      (λ f. ((before f, NotBefore-of_le e.at x.at xs (before f) h.0), h))
      (λ f. (NotBefore-push_entry x.at e xs (behind f) h.0, push_entry-Ascending e xs h.1))
  where
    before : ltb e.at x.at ≡ true → e.at ≤ x.at
    before f = ground arith

    behind : ltb e.at x.at ≡ false → x.at ≤ e.at
    behind f = ground arith

pub arm_expiry_timer-objects : (u : UdpEngine) → (arm_expiry_timer u).objects ≡ u.objects
unfolding arm_expiry_timer arm_top
arm_expiry_timer-objects u =
    cases (pop_stale u u.expiry_heap) (record u { expiry_heap = pop_stale u u.expiry_heap })
  where
    cases : (heap : List ExpiryEntry) (x : UdpEngine) → (arm_top x heap).objects ≡ x.objects
    cases [] x = refl
    cases (e ∷ es) x =
        if_both (λ (y : UdpEngine). y.objects ≡ x.objects)
          (x.timer_waiting && leb x.armed_target e.at) (λ h. refl) (λ h. refl)
