-- ===== src/Udp/Completion.antt =====
-- include/tunio/detail/udp_engine.hpp: how the writes of a send complete its handler, in
-- `udp_write_ipv4_fragments`, `udp_send_single` and `udp_send_fragmented`.
use tunio.Base.{
  ℕ, suc, ◌+◌, ◌-◌, ◌%◌, ◌^◌, ◌≤◌, ◌<◌, ◌≡◌, inl, inr, refl, sym, ap, ◌∙◌, List, [], ◌∷◌, ◌++◌,
  arith, Bool, true, false, not, ◌&&◌, length, ◌==◌, if◌then◌else◌, if_no, if_yes, Bool-cases, ltb,
  ltb→lt,
}
use tunio.Writer.{WriteError, succeeded, is_error}

-- The state that the fragments of one datagram share, and the results that `on_done` was called with.
pub record SendState : Type 0 where
  pub pending : ℕ
  pub first_error : WriteError
  pub done : List WriteError

abbrev pub new_state : ℕ → SendState
new_state n = record { pending = n; first_error = succeeded; done = [] }

abbrev pub note_error : SendState → WriteError → SendState
note_error st code = record st {
  first_error = if is_error code && not (is_error st.first_error) then code else st.first_error;
}

-- `on_frag`: one write of a fragment has ended; `pending` is a size_t.
unfoldable pub on_frag : SendState → WriteError → SendState
on_frag st code =
    let noted = note_error st code in
    let left = (st.pending + (2 ^ 64 - 1)) % 2 ^ 64 in
    if not (left == 0)
    then record noted { pending = left }
    else record noted { pending = left; done = noted.done ++ (noted.first_error ∷ []) }

unfoldable pub on_frags : SendState → List WriteError → SendState
unfolding on_frag
on_frags st [] = st
on_frags st (code ∷ codes) = on_frags (on_frag st code) codes

-- What the application's handler gets: the error, or the length of all that was sent.
unfoldable pub completed : ℕ → WriteError → WriteError × ℕ
completed total code = (code, if is_error code then 0 else total)

abbrev pub reports : ℕ → List WriteError → List (WriteError × ℕ)
reports total [] = []
reports total (code ∷ codes) = completed total code ∷ reports total codes

-- The completions of a send of `total` bytes in `n` fragments whose writes ended with `codes`, in this order.
unfoldable pub fragmented_done : ℕ → ℕ → List WriteError → List (WriteError × ℕ)
unfolding on_frags
fragmented_done total n codes = reports total (on_frags (new_state n) codes).done

-- The first error among results, if there is one.
abbrev pub first_failure : List WriteError → WriteError
first_failure [] = succeeded
first_failure (code ∷ codes) = if is_error code then code else first_failure codes

abbrev pick : WriteError → WriteError → WriteError
pick first code = if is_error code && not (is_error first) then code else first

abbrev first_from : WriteError → List WriteError → WriteError
first_from first [] = first
first_from first (code ∷ codes) = first_from (pick first code) codes

pick-error : (first code : WriteError) → is_error first ≡ true → pick first code ≡ first
pick-error first code h = if_no _ _ _ (taken (is_error code) _ h)
  where
    taken : (a b : Bool) → b ≡ true → (a && not b) ≡ false
    taken a b h = ground arith

first_from-error :
    (first : WriteError) (codes : List WriteError)
    → is_error first ≡ true
    → first_from first codes ≡ first
first_from-error first [] h = refl
first_from-error first (code ∷ codes) h =
    ap (λ c. first_from c codes) (pick-error first code h) ∙ first_from-error first codes h

first_from-first_failure :
    (codes : List WriteError) → first_from succeeded codes ≡ first_failure codes
first_from-first_failure [] = refl
first_from-first_failure (code ∷ codes) = elim (Bool-cases (is_error code)) [
  | inl e ↦
      ap (λ c. first_from c codes) (if_yes _ _ _ (ap (λ b. b && true) e))
      ∙ first_from-error code codes e
      ∙ sym (if_yes _ _ _ e)
  | inr e ↦
      ap (λ c. first_from c codes) (if_no _ _ _ (ap (λ b. b && true) e))
      ∙ first_from-first_failure codes
      ∙ sym (if_no _ _ _ e)
]

left_over : (n : ℕ) → 1 ≤ n → n < 2 ^ 64 → (n + (2 ^ 64 - 1)) % 2 ^ 64 ≡ n - 1
left_over n a b = omega arith

more : (n : ℕ) → 2 ≤ n → not (n - 1 == 0) ≡ true
more n h = ground arith

on_frag-more :
    (st : SendState) (code : WriteError)
    → 2 ≤ st.pending
    → st.pending < 2 ^ 64
    → on_frag st code
      ≡ record st { pending = st.pending - 1; first_error = pick st.first_error code }
unfolding on_frag
on_frag-more st code h k =
    let e = left_over st.pending (omega arith) k in
    if_yes _ _ _ (ap (λ n. not (n == 0)) e ∙ more st.pending h)
    ∙ ap (λ n. record (note_error st code) { pending = n }) e

on_frag-last :
    (st : SendState) (code : WriteError)
    → st.pending ≡ 1
    → (on_frag st code).done ≡ st.done ++ (pick st.first_error code ∷ [])
unfolding on_frag
on_frag-last st code h =
    ap (λ (q : SendState). q.done)
      (if_no _ _ _ (ap (λ n. not ((n + (2 ^ 64 - 1)) % 2 ^ 64 == 0)) h))

on_frags-some :
    (codes : List WriteError) (st : SendState)
    → length codes < st.pending
    → st.pending < 2 ^ 64
    → (on_frags st codes).done ≡ st.done
unfolding on_frags
on_frags-some [] st h k = refl
on_frags-some (code ∷ codes) st h k =
    let step = on_frag-more st code (omega arith) k in
    ap (λ (q : SendState). (on_frags q codes).done) step
    ∙ on_frags-some codes
        (record st { pending = st.pending - 1; first_error = pick st.first_error code })
        (omega arith) (omega arith)

on_frags-all :
    (code : WriteError) (codes : List WriteError) (st : SendState)
    → suc (length codes) ≡ st.pending
    → st.pending < 2 ^ 64
    → (on_frags st (code ∷ codes)).done ≡ st.done ++ (first_from st.first_error (code ∷ codes) ∷ [])
unfolding on_frags
on_frags-all code [] st h k = on_frag-last st code (sym h)
on_frags-all code (next ∷ codes) st h k =
    ap (λ (q : SendState). (on_frags q (next ∷ codes)).done) (on_frag-more st code (omega arith) k)
    ∙ on_frags-all next codes
        (record st { pending = st.pending - 1; first_error = pick st.first_error code })
        (omega arith) (omega arith)

-- A datagram in at least one and fewer than 2^64 fragments, whatever their writes end with: while a write is
-- still under way the handler of the send is not called, and after the last it was called exactly once, with
-- the first error in the order in which the writes ended and the length 0, or with success and the whole length.
pub fragmented_done-once :
    (total n : ℕ) (codes : List WriteError)
    → 1 ≤ n
    → n < 2 ^ 64
    → length codes ≤ n
    → fragmented_done total n codes
      ≡ (if ltb (length codes) n then [] else completed total (first_failure codes) ∷ [])
unfolding fragmented_done
fragmented_done-once total n codes a b c = elim (Bool-cases (ltb (length codes) n)) [
  | inl e ↦
      ap (reports total) (on_frags-some codes (new_state n) (ltb→lt _ _ e) b) ∙ sym (if_yes _ _ _ e)
  | inr e ↦ ap (reports total) (all codes (beyond _ _ e c)) ∙ sym (if_no _ _ _ e)
]
  where
    beyond : (a b : ℕ) → ltb a b ≡ false → a ≤ b → a ≡ b
    beyond a b h k = ground arith

    all :
        (codes : List WriteError)
        → length codes ≡ n
        → (on_frags (new_state n) codes).done ≡ first_failure codes ∷ []
    all [] h = absurd (omega arith)
    all (code ∷ codes) h =
        on_frags-all code codes (new_state n) h b
        ∙ ap (λ c. c ∷ []) (first_from-first_failure (code ∷ codes))
