-- ===== src/Cobs/Decode.antt =====
-- `Cobs::decode` inverts `Cobs::encode`, and ends on every input.
use matrixserver.Common.{
  ℕ, zero, suc, ◌+◌, ◌-◌, ◌/◌, ◌≤◌, ◌≡◌, ◌≢◌, refl, List, [], ◌∷◌, ◌++◌, some, arith, length,
  length-append, append_assoc, append-nil, false,
}
use matrixserver.Cobs.Defs.{
  returns, copy_block, close_block, is_end, decode_loop, pop_back, decode, encode, IsByte,
}
use matrixserver.Common.Sequences.{All, All-append}
use matrixserver.Cobs.Frame.{
  blocks, frame, IsNonzero, blocks-IsNonzero, length-blocks, blocks-IsByte,
}
use matrixserver.Cobs.Encode.{encode-frame}

copy_block_lem :
    (ys rest out : List ℕ) → copy_block (length ys) (ys ++ rest) out ≡ returns (rest, out ++ ys)
unfolding copy_block
copy_block_lem [] rest out = rw append-nil
copy_block_lem (y ∷ ys) rest out =
    ground (arith, copy_block_lem ys rest (out ++ (y ∷ [])), append_assoc out (y ∷ []) ys)

-- One round of the loop on a well-formed block.
round :
    (ys rest out : List ℕ) (code fuel : ℕ)
    → code - 1 ≡ length ys
    → decode_loop (suc fuel) (code ∷ (ys ++ rest)) out
      ≡ decode_loop fuel rest (close_block code rest (out ++ ys))
unfolding decode_loop
round ys rest out code fuel e = rw (e, copy_block_lem ys rest out)

-- The round on the delimiter, and the end of the loop.
round_delimiter : (out : List ℕ) (fuel : ℕ) → decode_loop (suc fuel) (0 ∷ []) out ≡ returns out
unfolding decode_loop close_block copy_block
round_delimiter out fuel = ground arith

is_end-append : (cur bs : List ℕ) → is_end (blocks cur bs ++ (0 ∷ [])) ≡ false
unfolding blocks
is_end-append cur [] = refl
is_end-append cur (b ∷ bs) = ground (arith, is_end-append (cur ++ (b ∷ [])) bs)

close_block_open :
    (code : ℕ) (rest out : List ℕ)
    → code ≢ 255
    → is_end rest ≡ false
    → close_block code rest out ≡ out ++ (0 ∷ [])
unfolding close_block
close_block_open code rest out h e = ground arith

close_block_full : (rest out : List ℕ) → close_block 255 rest out ≡ out
unfolding close_block
close_block_full rest out = refl

decode_loop-blocks :
    (bs cur out : List ℕ) (fuel : ℕ)
    → length cur ≤ 253
    → length bs + 2 ≤ fuel
    → decode_loop fuel (blocks cur bs ++ (0 ∷ [])) out ≡ returns (out ++ (cur ++ (bs ++ (0 ∷ []))))
unfolding blocks
decode_loop-blocks bs cur out zero h f = absurd (omega arith)
decode_loop-blocks bs cur out (suc zero) h f = absurd (omega arith)
decode_loop-blocks [] cur out (suc (suc fuel)) h f = ground (
  arith,
  round cur (0 ∷ []) out (length cur + 1) (suc fuel),
  close_block_open (length cur + 1) (0 ∷ []) (out ++ cur),
  round_delimiter ((out ++ cur) ++ (0 ∷ [])) fuel,
  append_assoc out cur (0 ∷ []),
)
decode_loop-blocks (b ∷ bs) cur out (suc (suc fuel)) h f =
    let rest = blocks [] bs ++ (0 ∷ []) in
    let last = bs ++ (0 ∷ []) in
    ground (
      arith,
      is_end-append [] bs,
      round cur rest out (length cur + 1) (suc fuel),
      close_block_open (length cur + 1) rest (out ++ cur),
      decode_loop-blocks bs [] ((out ++ cur) ++ (0 ∷ [])) (suc fuel),
      append_assoc cur (blocks [] bs) (0 ∷ []),
      append_assoc (out ++ cur) (0 ∷ []) last,
      append_assoc out cur (0 ∷ last),
      round (cur ++ (b ∷ [])) rest out 255 (suc fuel),
      close_block_full rest (out ++ (cur ++ (b ∷ []))),
      decode_loop-blocks bs [] (out ++ (cur ++ (b ∷ []))) (suc fuel),
      append_assoc cur (b ∷ blocks [] bs) (0 ∷ []),
      append_assoc cur (b ∷ []) rest,
      append_assoc out (cur ++ (b ∷ [])) last,
      append_assoc cur (b ∷ []) last,
      length-append cur (b ∷ []),
      decode_loop-blocks bs (cur ++ (b ∷ [])) out (suc (suc fuel)),
    )

pop_back_lem : (xs : List ℕ) (b : ℕ) → pop_back (xs ++ (b ∷ [])) ≡ returns xs
unfolding pop_back
pop_back_lem [] b = refl
pop_back_lem (x ∷ []) b = refl
pop_back_lem (x ∷ y ∷ xs) b = rw (pop_back_lem (y ∷ xs) b)

-- The frames of `encode` are long enough for the fuel.
pub length-blocks_lower : (bs cur : List ℕ) → length cur + length bs + 1 ≤ length (blocks cur bs)
unfolding blocks
length-blocks_lower [] cur = omega arith
length-blocks_lower (b ∷ bs) cur = ground (
  arith,
  length-append cur (blocks [] bs),
  length-append cur (b ∷ blocks [] bs),
  length-append cur (b ∷ []),
  length-blocks_lower bs [],
  length-blocks_lower bs (cur ++ (b ∷ [])),
)

pub decode-frame : (message : List ℕ) → decode (frame message) ≡ returns message
unfolding decode
decode-frame message =
    let n = length (frame message) in
    let fits = length-append (blocks [] message) (0 ∷ []) in
    let lower = length-blocks_lower message [] in
    let done = decode_loop-blocks message [] [] n (omega arith) (omega arith) in
    rw done (pop_back_lem message 0)

-- For every message `encode` returns a packet, `decode` returns that message from it, and the
-- packet is the code bytes and blocks, none of them zero, followed by one zero.
pub decode-encode :
    (message : List ℕ)
    → (packet : List ℕ) × (encode message ≡ some packet)
      × (decode packet ≡ returns message)
      × ((body : List ℕ) × (packet ≡ body ++ (0 ∷ [])) × All IsNonzero body)
decode-encode message = (
  frame message,
  encode-frame message,
  decode-frame message,
  (blocks [] message, refl, blocks-IsNonzero [] message tt),
)

-- The packet of `n` bytes has at most `n + n / 254 + 2`, and all are bytes.
pub encode_size :
    (message packet : List ℕ)
    → All IsByte message
    → encode message ≡ some packet
    → (length packet ≤ length message + length message / 254 + 2) × All IsByte packet
encode_size message packet h e =
    let same : frame message ≡ packet = cc (encode-frame message) in
    rw (← same) (
      omega (
        arith,
        length-append (blocks [] message) (0 ∷ []),
        length-blocks [] message (omega arith),
      ),
      All-append IsByte (blocks [] message) (0 ∷ []) (blocks-IsByte [] message (omega arith) tt h)
          (omega arith),
    )
