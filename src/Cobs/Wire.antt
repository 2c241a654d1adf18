-- ===== src/Cobs/Wire.antt =====
-- The wire between two connections: where the loop of insertBytesAndReturnDecodedPackets stands in it.
use matrixserver.Common.{
  ℕ, ◌≤◌, ◌≡◌, ◌≢◌, refl, ap, subst, ◌∙◌, List, [], ◌∷◌, ◌++◌, arith, length, length-append, ◌==◌,
  append_assoc, append-nil, Bool-cases, inl, inr,
}
use matrixserver.Common.Sequences.{All, All-append}
use matrixserver.Cobs.Defs.{returns, insert_loop}
use matrixserver.Cobs.Frame.{blocks, frame, IsNonzero, blocks-IsNonzero}
use matrixserver.Cobs.Decode.{decode-frame, length-blocks_lower}

-- What a peer writes for a list of messages.
abbrev pub wire : List (List ℕ) → List ℕ
wire [] = []
wire (m ∷ ms) = frame m ++ wire ms

-- The chunks that the socket delivers, put together.
abbrev pub joined : List (List ℕ) → List ℕ
joined [] = []
joined (c ∷ cs) = c ++ joined cs

-- A sequence splits at its first zero in one way only.
split_unique :
    (xs ys r t : List ℕ)
    → All IsNonzero xs
    → All IsNonzero ys
    → xs ++ (0 ∷ r) ≡ ys ++ (0 ∷ t)
    → (xs ≡ ys) × (r ≡ t)
split_unique [] [] r t p q e = ground arith
split_unique [] (y ∷ ys) r t p q e = ground arith
split_unique (x ∷ xs) [] r t p q e = ground arith
split_unique (x ∷ xs) (y ∷ ys) r t p q e = ground (arith, split_unique xs ys r t)

-- Bytes without a zero that begin such a sequence lie before its zero.
pub prefix_length :
    (xs ys r t : List ℕ) → All IsNonzero xs → xs ++ r ≡ ys ++ (0 ∷ t) → length xs ≤ length ys
prefix_length [] ys r t p e = omega arith
prefix_length (x ∷ xs) [] r t p e = ground arith
prefix_length (x ∷ xs) (y ∷ ys) r t p e = ground (arith, prefix_length xs ys r t)

-- A buffer that agrees with the wire: what it holds has no delimiter, and what is to come
-- completes the frames of `ms`.
pub record Pending (buffer later : List ℕ) (ms : List (List ℕ)) : Type 0 where
  pub clean : All IsNonzero buffer
  pub agrees : buffer ++ later ≡ wire ms

abbrev pub IsNonempty : List ℕ → Type 0
IsNonempty m = m ≢ []

-- Where a run of the loop over `bs` stands: the packets found, the messages left.
abbrev pub Progress : List ℕ → List ℕ → List (List ℕ) → List ℕ → List (List ℕ) → Type 0
Progress buffer bs result later ms =
    (found : List (List ℕ)) × (left : List (List ℕ)) × (rest : List ℕ) × (insert_loop buffer bs
        result
      ≡ returns (result ++ found, rest))
    × (ms ≡ found ++ left)
    × Pending rest later left
    × All IsNonempty left

insert_keep :
    (buffer bs : List ℕ) (b : ℕ) (result : List (List ℕ))
    → b ≢ 0
    → insert_loop buffer (b ∷ bs) result ≡ insert_loop (buffer ++ (b ∷ [])) bs result
unfolding insert_loop
insert_keep buffer bs b result n = ground arith

insert_packet :
    (message bs : List ℕ) (result : List (List ℕ))
    → message ≢ []
    → insert_loop (blocks [] message) (0 ∷ bs) result ≡ insert_loop [] bs (result ++ (message ∷ []))
unfolding insert_loop
insert_packet [] bs result n = absurd (n refl)
insert_packet (m ∷ message) bs result n = ground (
  arith,
  decode-frame (m ∷ message),
  length-blocks_lower (m ∷ message) [],
  length-append (blocks [] (m ∷ message)) (0 ∷ []),
)

-- At a delimiter the buffer holds the first message's blocks.
pub first_frame :
    (buffer r : List ℕ) (ms : List (List ℕ))
    → All IsNonzero buffer
    → buffer ++ (0 ∷ r) ≡ wire ms
    → (m : List ℕ) × (rest : List (List ℕ)) × (ms ≡ m ∷ rest)
      × (buffer ≡ blocks [] m)
      × (r ≡ wire rest)
first_frame [] r [] c e = absurd (ground arith)
first_frame (x ∷ buffer) r [] c e = absurd (ground arith)
first_frame buffer r (m ∷ ms) c e =
    let same =
      split_unique buffer (blocks [] m) r (wire ms) c (blocks-IsNonzero [] m tt)
        (e ∙ append_assoc (blocks [] m) (0 ∷ []) (wire ms)) in
    (m, ms, refl, same.0, same.1)

insert_delimiter :
    (buffer bs m : List ℕ) (b : ℕ) (result : List (List ℕ))
    → b ≡ 0
    → buffer ≡ blocks [] m
    → m ≢ []
    → insert_loop buffer (b ∷ bs) result ≡ insert_loop [] bs (result ++ (m ∷ []))
insert_delimiter buffer bs m b result z e n = rw (z, e) (insert_packet m bs result n)

pub insert_loop-Progress :
    (bs buffer : List ℕ) (result : List (List ℕ)) (later : List ℕ) (ms : List (List ℕ))
    → Pending buffer (bs ++ later) ms
    → All IsNonempty ms
    → Progress buffer bs result later ms
insert_loop-Progress [] buffer result later ms p n =
    ([], ms, buffer, unfold insert_loop in rw append-nil, refl, p, n)
insert_loop-Progress (b ∷ bs) buffer result later ms p n = elim (Bool-cases (b == 0)) [
  | inr e ↦
      let clean = All-append IsNonzero buffer (b ∷ []) p.clean ((ground arith), tt) in
      let agrees = append_assoc buffer (b ∷ []) (bs ++ later) ∙ p.agrees in
      let (found, left, rest, ran, split, pending, more) =
        insert_loop-Progress bs (buffer ++ (b ∷ [])) result later ms
          (record { clean = clean; agrees = agrees }) n in
      (found, left, rest, insert_keep buffer bs b result (ground arith) ∙ ran, split, pending, more)
  | inl e ↦
      let z : b ≡ 0 = ground arith in
      let agrees : buffer ++ (0 ∷ (bs ++ later)) ≡ wire ms = rw (← z) p.agrees in
      let (m, ms', eq, body, tail) = first_frame buffer (bs ++ later) ms p.clean agrees in
      let both : All IsNonempty (m ∷ ms') = subst (All IsNonempty) eq n in
      let (found, left, rest, ran, split, pending, more) =
        insert_loop-Progress bs [] (result ++ (m ∷ [])) later ms'
          (record { clean = tt; agrees = tail }) both.1 in
      (
        m ∷ found,
        left,
        rest,
        insert_delimiter buffer bs m b result z body both.0
            ∙ (ran ∙ ap (λ f. returns (f, rest)) (append_assoc result (m ∷ []) found)),
        eq ∙ ap (λ t. m ∷ t) split,
        pending,
        more,
      )
]
