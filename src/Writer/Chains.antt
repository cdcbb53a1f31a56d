-- ===== src/Writer/Chains.antt =====
-- The chains as a table: sums over it, and what an update leaves alone.
use tunio.Base.{
  some≢none, subst, ◌==◌, Bool-cases, inl, inr, sym, true, false, ℕ, zero, suc, ◌+◌, ◌≤◌, ◌<◌, ◌≡◌,
  ◌≢◌, refl, ap, List, [], ◌∷◌, Option, none, some, length, get_or, arith,
}
use tunio.Writer.{Entry, Chain, idle, set_chain, emptied}

abbrev pub count_of : Option Entry → ℕ
count_of none = 0
count_of (some e) = 1

abbrev pub waiting_in : Chain → ℕ
waiting_in c = length c.waiting

abbrev pub flying_in : Chain → ℕ
flying_in c = count_of c.current

abbrev pub total : (Chain → ℕ) → List Chain → ℕ
total f [] = 0
total f (c ∷ cs) = f c + total f cs

pub length-set_chain : (cs : List Chain) (q : ℕ) (c : Chain) → length (set_chain cs q c) ≡ length cs
length-set_chain [] q c = refl
length-set_chain (x ∷ xs) zero c = refl
length-set_chain (x ∷ xs) (suc q) c = ap suc (length-set_chain xs q c)

pub total-set_chain :
    (f : Chain → ℕ) (cs : List Chain) (q : ℕ) (c : Chain)
    → q < length cs
    → total f (set_chain cs q c) + f (get_or cs q idle) ≡ total f cs + f c
total-set_chain f [] q c h = absurd (omega arith)
total-set_chain f (x ∷ xs) zero c h = omega arith
total-set_chain f (x ∷ xs) (suc q) c h = omega (arith, total-set_chain f xs q c (omega arith))

pub get_or-set_chain :
    (cs : List Chain) (q : ℕ) (c : Chain) → q < length cs → get_or (set_chain cs q c) q idle ≡ c
get_or-set_chain [] q c h = absurd (omega arith)
get_or-set_chain (x ∷ xs) zero c h = refl
get_or-set_chain (x ∷ xs) (suc q) c h = get_or-set_chain xs q c (omega arith)

pub get_or-set_chain_other :
    (cs : List Chain) (q i : ℕ) (c : Chain)
    → i ≢ q
    → get_or (set_chain cs q c) i idle ≡ get_or cs i idle
get_or-set_chain_other [] q i c h = refl
get_or-set_chain_other (x ∷ xs) zero zero c h = absurd (h refl)
get_or-set_chain_other (x ∷ xs) zero (suc i) c h = refl
get_or-set_chain_other (x ∷ xs) (suc q) zero c h = refl
get_or-set_chain_other (x ∷ xs) (suc q) (suc i) c h =
    get_or-set_chain_other xs q i c (λ e. h (ap suc e))

pub set_chain_twice :
    (cs : List Chain) (q : ℕ) (c d : Chain) → set_chain (set_chain cs q c) q d ≡ set_chain cs q d
set_chain_twice [] q c d = refl
set_chain_twice (x ∷ xs) zero c d = refl
set_chain_twice (x ∷ xs) (suc q) c d = ap (◌∷◌ x) (set_chain_twice xs q c d)

-- No chain waits for more than all of them together.
pub waiting_in-le : (cs : List Chain) (q : ℕ) → waiting_in (get_or cs q idle) ≤ total waiting_in cs
waiting_in-le [] q = omega arith
waiting_in-le (x ∷ xs) zero = omega arith
waiting_in-le (x ∷ xs) (suc q) = omega (arith, waiting_in-le xs q)

pub length-emptied : (cs : List Chain) → length (emptied cs) ≡ length cs
length-emptied [] = refl
length-emptied (c ∷ cs) = ap suc (length-emptied cs)

pub waiting-emptied : (cs : List Chain) → total waiting_in (emptied cs) ≡ 0
waiting-emptied [] = refl
waiting-emptied (c ∷ cs) = omega (arith, waiting-emptied cs)

pub flying-emptied : (cs : List Chain) → total flying_in (emptied cs) ≡ total flying_in cs
flying-emptied [] = refl
flying-emptied (c ∷ cs) = ap (λ n. flying_in c + n) (flying-emptied cs)

pub get_or-emptied :
    (cs : List Chain) (q : ℕ)
    → get_or (emptied cs) q idle ≡ record { waiting = []; current = (get_or cs q idle).current }
get_or-emptied [] q = refl
get_or-emptied (c ∷ cs) zero = refl
get_or-emptied (c ∷ cs) (suc q) = get_or-emptied cs q

-- A property of every index, proved at `q` and at the others.
pub at_or_other {ℓ} : (P : ℕ → Type ℓ) (q i : ℕ) → P q → (i ≢ q → P i) → P i
at_or_other P q i h k = elim (Bool-cases (i == q)) [
  | inl e ↦ subst P (sym (at_equal e)) h
  | inr e ↦ k (λ f. absurd (other e f))
]
  where
    at_equal : (i == q) ≡ true → i ≡ q
    at_equal e = ground arith

    other : (i == q) ≡ false → i ≡ q → ⊥
    other e f = ground arith

pub inside_of_current :
    (cs : List Chain) (q : ℕ) (e : Entry) → (get_or cs q idle).current ≡ some e → q < length cs
inside_of_current [] q e h = absurd (some≢none (sym h))
inside_of_current (x ∷ xs) zero e h = omega arith
inside_of_current (x ∷ xs) (suc q) e h = omega (arith, inside_of_current xs q e h)
