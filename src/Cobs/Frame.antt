-- ===== src/Cobs/Frame.antt =====
-- The frame that `Cobs::encode` writes, as a recursion on the message.
use matrixserver.Common.{
  ℕ, ◌+◌, ◌/◌, ◌≤◌, ◌≢◌, List, [], ◌∷◌, ◌++◌, arith, length, length-append, ◌==◌, if◌then◌else◌,
}
use matrixserver.Common.Sequences.{All, All-append}
use matrixserver.Cobs.Defs.{IsByte}

-- The code bytes and blocks for a message of which the open block holds `cur`.
unfoldable pub blocks : List ℕ → List ℕ → List ℕ
blocks cur [] = (length cur + 1) ∷ cur
blocks cur (b ∷ bs) =
    let next = (length cur + 1) ∷ (cur ++ blocks [] bs) in
    let full = 255 ∷ (cur ++ (b ∷ blocks [] bs)) in
    let more = blocks (cur ++ (b ∷ [])) bs in
    if b == 0 then next else (if length cur == 253 then full else more)

-- A frame is its blocks and the zero delimiter.
abbrev pub frame : List ℕ → List ℕ
frame message = blocks [] message ++ (0 ∷ [])

abbrev pub IsNonzero : ℕ → Type 0
IsNonzero b = b ≢ 0

-- No code byte and no copied byte is zero.
pub blocks-IsNonzero : (cur bs : List ℕ) → All IsNonzero cur → All IsNonzero (blocks cur bs)
unfolding blocks
blocks-IsNonzero cur [] h = (omega arith, h)
blocks-IsNonzero cur (b ∷ bs) h = ground (
  arith,
  All-append IsNonzero cur (blocks [] bs) h (blocks-IsNonzero [] bs tt),
  blocks-IsNonzero [] bs tt,
  All-append IsNonzero cur (b ∷ blocks [] bs) h,
  All-append IsNonzero cur (b ∷ []) h,
  blocks-IsNonzero (cur ++ (b ∷ [])) bs,
)

-- How many blocks there are beside the first: one per zero, and one per 254 bytes without a zero.
pub length-blocks :
    (cur bs : List ℕ)
    → length cur ≤ 253
    → length (blocks cur bs) ≤ length cur + length bs + 1 + (length cur + length bs) / 254
unfolding blocks
length-blocks cur [] h = omega arith
length-blocks cur (b ∷ bs) h = ground (
  arith,
  length-append cur (blocks [] bs),
  length-append cur (b ∷ blocks [] bs),
  length-append cur (b ∷ []),
  length-blocks [] bs (omega arith),
  length-blocks (cur ++ (b ∷ [])) bs,
)

pub blocks-IsByte :
    (cur bs : List ℕ)
    → length cur ≤ 253
    → All IsByte cur
    → All IsByte bs
    → All IsByte (blocks cur bs)
unfolding blocks
blocks-IsByte cur [] h c i = (omega arith, c)
blocks-IsByte cur (b ∷ bs) h c i = ground (
  arith,
  length-append cur (b ∷ []),
  All-append IsByte cur (blocks [] bs) c (blocks-IsByte [] bs (omega arith) tt i.1),
  All-append IsByte cur (b ∷ blocks [] bs) c (i.0, blocks-IsByte [] bs (omega arith) tt i.1),
  All-append IsByte cur (b ∷ []) c (i.0, tt),
  blocks-IsByte (cur ++ (b ∷ [])) bs,
)
