-- ===== src/Cobs/Total.antt =====
-- `Cobs::decode` on any bytes, well formed or not.
use matrixserver.Common.{
  ℕ, zero, suc, ◌+◌, ◌-◌, ◌≤◌, ◌<◌, ◌≡◌, ◌≢◌, refl, List, [], ◌∷◌, ◌++◌, arith, length,
  length-append, inl, inr, ◌⊎◌,
}
use matrixserver.Cobs.Defs.{
  Outcome, returns, undefined, stuck, copy_block, close_block, decode_loop, pop_back, decode,
}

copy_block-ne-stuck : (n : ℕ) (input out : List ℕ) → copy_block n input out ≢ stuck
unfolding copy_block
copy_block-ne-stuck zero input out = λ e. cc
copy_block-ne-stuck (suc n) [] out = λ e. cc
copy_block-ne-stuck (suc n) (b ∷ input) out = copy_block-ne-stuck n input (out ++ (b ∷ []))

-- What a block leaves is no longer, and its bytes have gone to the result.
copy_block_lengths :
    (n : ℕ) (input out rest out' : List ℕ)
    → copy_block n input out ≡ returns (rest, out')
    → (length rest + n ≡ length input) × (length out' ≡ length out + n)
unfolding copy_block
copy_block_lengths zero input out rest out' e = ground arith
copy_block_lengths (suc n) [] out rest out' e = cc
copy_block_lengths (suc n) (b ∷ input) out rest out' e =
    ground
      (arith, copy_block_lengths n input (out ++ (b ∷ [])) rest out' e, length-append out (b ∷ []))

pub Outcome-cases {ℓ} :
    {A : Type ℓ} (r : Outcome A) → ((a : A) × (r ≡ returns a)) ⊎ ((r ≡ undefined) ⊎ (r ≡ stuck))
Outcome-cases (returns a) = inl (a, refl)
Outcome-cases undefined = inr (inl refl)
Outcome-cases stuck = inr (inr refl)

length-close_block :
    (code : ℕ) (rest out : List ℕ)
    → (length (close_block code rest out) ≤ length out + 1)
      × (rest ≡ [] → close_block code rest out ≡ out)
unfolding close_block
length-close_block code [] out = ground arith
length-close_block code (b ∷ rest) out = (ground (arith, length-append out (0 ∷ [])), λ e. cc)

decode_loop-ne-stuck :
    (fuel : ℕ) (input out : List ℕ) → length input ≤ fuel → decode_loop fuel input out ≢ stuck
unfolding decode_loop
decode_loop-ne-stuck fuel [] out h = λ e. cc
decode_loop-ne-stuck zero (c ∷ input) out h = absurd (omega arith)
decode_loop-ne-stuck (suc fuel) (c ∷ input) out h =
    elim (Outcome-cases (copy_block (c - 1) input out)) [
      | inl ((rest, out'), e) ↦ rw e (
          decode_loop-ne-stuck fuel rest (close_block c rest out')
            (omega (arith, copy_block_lengths (c - 1) input out rest out' e)))
      | inr (inl e) ↦ rw e (λ p. cc)
      | inr (inr e) ↦ absurd (copy_block-ne-stuck (c - 1) input out e)
    ]

length-decode_loop :
    (fuel : ℕ) (c : ℕ) (input out r : List ℕ)
    → decode_loop fuel (c ∷ input) out ≡ returns r
    → length r ≤ length out + length input
unfolding decode_loop
length-decode_loop zero c input out r e = cc
length-decode_loop (suc fuel) c input out r e =
    elim (Outcome-cases (copy_block (c - 1) input out)) [
      | inl (([], out'), p) ↦
          ground
            (arith, copy_block_lengths (c - 1) input out [] out' p, length-close_block c [] out')
      | inl ((d ∷ rest, out'), p) ↦ ground (
        arith,
        copy_block_lengths (c - 1) input out (d ∷ rest) out' p,
        length-close_block c (d ∷ rest) out',
        length-decode_loop fuel d rest (close_block c (d ∷ rest) out') r,
      )
      | inr (inl p) ↦ cc
      | inr (inr p) ↦ cc
    ]

pop_back-ne-stuck : (xs : List ℕ) → pop_back xs ≢ stuck
unfolding pop_back
pop_back-ne-stuck [] = λ e. cc
pop_back-ne-stuck (x ∷ []) = λ e. cc
pop_back-ne-stuck (x ∷ y ∷ xs) = elim (Outcome-cases (pop_back (y ∷ xs))) [
  | inl (a, e) ↦ rw e (λ p. cc)
  | inr (inl e) ↦ rw e (λ p. cc)
  | inr (inr e) ↦ absurd (pop_back-ne-stuck (y ∷ xs) e)
]

length-pop_back : (xs ys : List ℕ) → pop_back xs ≡ returns ys → length ys + 1 ≡ length xs
unfolding pop_back
length-pop_back [] ys e = cc
length-pop_back (x ∷ []) ys e = ground arith
length-pop_back (x ∷ y ∷ xs) ys e = elim (Outcome-cases (pop_back (y ∷ xs))) [
  | inl (a, p) ↦ ground (arith, length-pop_back (y ∷ xs) a p)
  | inr (inl p) ↦ cc
  | inr (inr p) ↦ cc
]

-- `decode` ends on every packet, and a message that it returns is shorter than the packet by two
-- bytes at least, so the capacity that it reserves is enough.
pub decode_total :
    (packet : List ℕ)
    → (decode packet ≢ stuck)
      × ((message : List ℕ) → decode packet ≡ returns message → length message + 2 ≤ length packet)
unfolding decode
decode_total packet = (ends packet, short packet)
  where
    ends : (p : List ℕ) → decode p ≢ stuck
    ends p = elim (Outcome-cases (decode_loop (length p) p [])) [
      | inl (r, e) ↦ rw e (pop_back-ne-stuck r)
      | inr (inl e) ↦ rw e (λ q. cc)
      | inr (inr e) ↦ absurd (decode_loop-ne-stuck (length p) p [] (omega arith) e)
    ]

    short : (p m : List ℕ) → decode p ≡ returns m → length m + 2 ≤ length p
    short [] m e = unfold decode_loop pop_back in cc
    short (c ∷ p) m e = elim (Outcome-cases (decode_loop (length (c ∷ p)) (c ∷ p) [])) [
      | inl (r, q) ↦
          ground (arith, length-decode_loop (length (c ∷ p)) c p [] r q, length-pop_back r m)
      | inr (inl q) ↦ cc
      | inr (inr q) ↦ cc
    ]

copy_block_overrun :
    (n : ℕ) (input out : List ℕ) → length input < n → copy_block n input out ≡ undefined
unfolding copy_block
copy_block_overrun zero input out h = absurd (omega arith)
copy_block_overrun (suc n) [] out h = refl
copy_block_overrun (suc n) (b ∷ input) out h =
    copy_block_overrun n input (out ++ (b ∷ [])) (omega arith)

-- A packet whose first code byte promises more bytes than follow makes `decode` read behind the end
-- of its input.
pub decode_overrun :
    (code : ℕ) (input : List ℕ) → length input + 1 < code → decode (code ∷ input) ≡ undefined
unfolding decode decode_loop
decode_overrun code input h = rw (copy_block_overrun (code - 1) input [] (omega arith))
