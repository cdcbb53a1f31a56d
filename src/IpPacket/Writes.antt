-- ===== src/IpPacket/Writes.antt =====
-- What the writes of the builder leave in the buffer.
use tunio.Base.{
  ℕ, zero, suc, ◌+◌, ◌≤◌, ◌≡◌, sym, ap, ◌∙◌, List, [], ◌∷◌, ◌++◌, arith, length, take, drop,
  length-append, drop-append_eq, append_assoc,
}
use tunio.IpPacket.Types.{Storage, writable_size}
use tunio.IpPacket.Parse.{write}
use tunio.IpPacket.Build.{push}

-- Data as long as the front replaces it.
pub write-front :
    (front rest bytes : List ℕ)
    → length bytes ≡ length front
    → write (front ++ rest) 0 bytes ≡ bytes ++ rest
write-front front rest bytes h =
    ap (λ xs. bytes ++ xs) (drop-append_eq (0 + length bytes) front rest (omega (arith, h)))

pub take_behind :
    (xs ys : List ℕ) (n j : ℕ) → n ≡ length xs + j → take n (xs ++ ys) ≡ xs ++ take j ys
take_behind [] ys n j h = ap (λ k. take k ys) (omega (arith, h))
take_behind (x ∷ xs) ys zero j h = absurd (omega arith)
take_behind (x ∷ xs) ys (suc n) j h = ap (◌∷◌ x) (take_behind xs ys n j (omega arith))

pub drop_behind : (xs ys : List ℕ) (n j : ℕ) → n ≡ length xs + j → drop n (xs ++ ys) ≡ drop j ys
drop_behind [] ys n j h = ap (λ k. drop k ys) (omega (arith, h))
drop_behind (x ∷ xs) ys zero j h = absurd (omega arith)
drop_behind (x ∷ xs) ys (suc n) j h = drop_behind xs ys n j (omega arith)

-- A write behind a front leaves the front.
pub write-behind :
    (front rest bytes : List ℕ) (n j : ℕ)
    → n ≡ length front + j
    → write (front ++ rest) n bytes ≡ front ++ write rest j bytes
write-behind front rest bytes n j h =
    ap (λ xs. xs ++ (bytes ++ drop (n + length bytes) (front ++ rest)))
      (take_behind front rest n j h)
    ∙ ap (λ xs. (front ++ take j rest) ++ (bytes ++ xs))
        (drop_behind front rest (n + length bytes) (j + length bytes) (omega (arith, h)))
    ∙ append_assoc front (take j rest) (bytes ++ drop (j + length bytes) rest)

-- Data as long as the field replaces the field.
pub write-field :
    (front field rest bytes : List ℕ) (n : ℕ)
    → n ≡ length front
    → length bytes ≡ length field
    → write (front ++ (field ++ rest)) n bytes ≡ front ++ (bytes ++ rest)
write-field front field rest bytes n h k =
    write-behind front (field ++ rest) bytes n 0 (omega (arith, h))
    ∙ ap (λ xs. front ++ xs) (write-front field rest bytes k)

-- A buffer that holds these committed bytes in front of these others.
pub record Holds (b : Storage) (bytes rest : List ℕ) : Type 0 where
  pub cells : b.cells ≡ bytes ++ rest
  pub size : b.size ≡ length bytes

pub Holds-writable_size :
    {b : Storage} {bytes rest : List ℕ} → Holds b bytes rest → writable_size b ≡ length rest
Holds-writable_size {bytes} {rest} h =
    omega (arith, ap length h.cells, h.size, length-append bytes rest)

-- Data that fits is appended to the committed bytes.
pub push-Holds :
    {b : Storage} {bytes rest : List ℕ} (more : List ℕ)
    → length more ≤ length rest
    → Holds b bytes rest
    → Holds (push b more) (bytes ++ more) (drop (length more) rest)
push-Holds {b} {bytes} {rest} more fits h = record {
  cells =
      ap (λ xs. write xs b.size more) h.cells
      ∙ write-behind bytes rest more b.size 0 (omega (arith, h.size))
      ∙ ap (λ n. bytes ++ (more ++ drop n rest)) (omega arith)
      ∙ sym (append_assoc bytes more (drop (length more) rest));
  size = omega (arith, h.size, length-append bytes more);
}
