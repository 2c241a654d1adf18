-- ===== src/Cobs/Stream.antt =====
-- common/Cobs.cpp, `insertBytesAndReturnDecodedPackets` over a stream of frames that arrives in chunks.
use matrixserver.Common.{
  ℕ, suc, ◌+◌, ◌≤◌, ◌≡◌, refl, sym, ap, subst, ◌∙◌, List, [], ◌∷◌, ◌++◌, arith, length,
  length-append, append_assoc, inl, inr,
}
use matrixserver.Common.Sequences.{All}
use matrixserver.Cobs.Defs.{
  Outcome, returns, ◌>>=ₒ◌, insert_loop, insert_bytes, max_stream_buffer_size,
}
use matrixserver.Cobs.Frame.{blocks, frame}
use matrixserver.Cobs.Total.{Outcome-cases}
use matrixserver.Cobs.Wire.{wire, joined, Pending, IsNonempty, insert_loop-Progress, prefix_length}

-- The calls that a connection makes for the chunks it reads, one after the other.
unfoldable pub feed : List ℕ → List (List ℕ) → Outcome (List (List ℕ) × List ℕ)
feed buffer [] = returns ([], buffer)
feed buffer (c ∷ cs) =
    insert_bytes buffer c >>=ₒ λ p. feed p.1 cs >>=ₒ λ q. returns (p.0 ++ q.0, q.1)

-- What is pending is shorter than the longest frame.
length-Pending :
    (buffer later : List ℕ) (ms : List (List ℕ)) (longest : ℕ)
    → Pending buffer later ms
    → All (λ m. length (frame m) ≤ longest) ms
    → length buffer ≤ longest
length-Pending [] later ms longest p h = omega arith
length-Pending (b ∷ buffer) later [] longest p h = absurd (ground (arith, p.agrees))
length-Pending (b ∷ buffer) later (m ∷ ms) longest p h = omega (
  arith,
  h.0,
  length-append (blocks [] m) (0 ∷ []),
  prefix_length (b ∷ buffer) (blocks [] m) later (wire ms) p.clean
      (p.agrees ∙ append_assoc (blocks [] m) (0 ∷ []) (wire ms)),
)

All-split : (P : List ℕ → Type 0) (xs ys : List (List ℕ)) → All P (xs ++ ys) → All P ys
All-split P [] ys h = h
All-split P (x ∷ xs) ys h = All-split P xs ys h.1

insert_bytes_fits :
    (buffer c : List ℕ)
    → length buffer + length c ≤ max_stream_buffer_size
    → insert_bytes buffer c ≡ insert_loop buffer c []
unfolding insert_bytes
insert_bytes_fits buffer c h = ground arith

feed_step :
    (buffer c rest left : List ℕ) (cs found more : List (List ℕ))
    → insert_bytes buffer c ≡ returns (found, rest)
    → feed rest cs ≡ returns (more, left)
    → feed buffer (c ∷ cs) ≡ returns (found ++ more, left)
unfolding feed
feed_step buffer c rest left cs found more e f = rw e (rw f)

no_frames_left :
    (buffer : List ℕ) (ms : List (List ℕ)) → Pending buffer [] ms → (ms ≡ []) × (buffer ≡ [])
no_frames_left [] [] p = (refl, refl)
no_frames_left (b ∷ buffer) [] p = absurd (ground (arith, p.agrees))
no_frames_left buffer (m ∷ ms) p = absurd (omega (arith, length_contra))
  where
    e : buffer ++ [] ≡ blocks [] m ++ (0 ∷ wire ms)
    e = p.agrees ∙ append_assoc (blocks [] m) (0 ∷ []) (wire ms)

    length_contra : suc (length buffer) ≤ length buffer
    length_contra = omega (
      arith,
      prefix_length buffer (blocks [] m) [] (wire ms) p.clean e,
      ap length e,
      length-append buffer [],
      length-append (blocks [] m) (0 ∷ wire ms),
    )

-- The chunks deliver the messages that are pending, from any buffer that agrees with the wire.
feed-Pending :
    (cs : List (List ℕ)) (buffer : List ℕ) (ms : List (List ℕ)) (longest most : ℕ)
    → longest + most ≤ max_stream_buffer_size
    → All IsNonempty ms
    → All (λ m. length (frame m) ≤ longest) ms
    → All (λ c. length c ≤ most) cs
    → Pending buffer (joined cs) ms
    → feed buffer cs ≡ returns (ms, [])
feed-Pending [] buffer ms longest most fits n short small p =
    let (none_left, empty) = no_frames_left buffer ms p in
    rw (none_left, empty) (unfold feed in refl)
feed-Pending (c ∷ cs) buffer ms longest most fits n short small p =
    let (found, left, rest, ran, split, pending, more) =
      insert_loop-Progress c buffer [] (joined cs) ms p n in
    let short' =
      All-split (λ m. length (frame m) ≤ longest) found left
        (subst (All (λ m. length (frame m) ≤ longest)) split short) in
    let room = length-Pending buffer (c ++ joined cs) ms longest p short in
    feed_step buffer c rest [] cs found left (insert_bytes_fits buffer c (omega arith) ∙ ran)
      (feed-Pending cs rest left longest most fits more short' small.1 pending)
    ∙ ap (λ t. returns (t, [])) (sym split)

-- However the wire is cut into chunks, a connection that starts with an empty buffer returns the
-- messages in order, each once, and its buffer is empty again, if no message is empty and the
-- longest frame and the longest chunk together fit the buffer's limit.
pub feed-wire :
    (cs ms : List (List ℕ)) (longest most : ℕ)
    → longest + most ≤ max_stream_buffer_size
    → All IsNonempty ms
    → All (λ m. length (frame m) ≤ longest) ms
    → All (λ c. length c ≤ most) cs
    → joined cs ≡ wire ms
    → feed [] cs ≡ returns (ms, [])
feed-wire cs ms longest most fits n short small e =
    feed-Pending cs [] ms longest most fits n short small (record { clean = tt; agrees = e })

-- A run of `feed` that returns is a run of its first call and of the others.
pub feed_cases :
    (buffer c : List ℕ) (cs found : List (List ℕ)) (rest : List ℕ)
    → feed buffer (c ∷ cs) ≡ returns (found, rest)
    → (now : List (List ℕ)) × (mid : List ℕ) × (later : List (List ℕ)) × (insert_bytes buffer c
        ≡ returns (now, mid))
      × (feed mid cs ≡ returns (later, rest))
      × (found ≡ now ++ later)
unfolding feed
feed_cases buffer c cs found rest e = elim (Outcome-cases (insert_bytes buffer c)) [
  | inl ((now, mid), p) ↦ elim (Outcome-cases (feed mid cs)) [
    | inl ((later, rest'), q) ↦ (now, mid, later, p, ground arith, ground arith)
    | inr (inl q) ↦ cc
    | inr (inr q) ↦ cc
  ]
  | inr (inl p) ↦ cc
  | inr (inr p) ↦ cc
]
