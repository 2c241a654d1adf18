-- ===== src/Cobs/Tests.antt =====
-- Runs of the byte stuffing at concrete inputs.
use matrixserver.Common.{ℕ, ◌≡◌, refl, List, [], ◌∷◌, ◌++◌, some, length, ◌+◌, ◌/◌, ◌≤◌, ◌≢◌, arith}
use matrixserver.Common.Sequences.{All}
use matrixserver.Cobs.Defs.{encode, decode, returns, undefined, stuck, IsByte}
use matrixserver.Cobs.Frame.{frame, blocks, IsNonzero}
use matrixserver.Cobs.Encode.{encode-frame}
use matrixserver.Cobs.Decode.{decode-encode, encode_size}
use matrixserver.Cobs.Total.{decode_total, decode_overrun}
use matrixserver.Cobs.Stream.{feed, feed-wire}

-- A zero, two bytes and a zero at the end.
abbrev sample : List ℕ
sample = 0 ∷ 7 ∷ 9 ∷ 0 ∷ []

sample_packet : encode sample ≡ some (1 ∷ 3 ∷ 7 ∷ 9 ∷ 1 ∷ 0 ∷ [])
unfolding blocks
sample_packet = encode-frame sample

encode-frame_example : encode sample ≡ some (frame sample)
encode-frame_example = encode-frame sample

decode-encode_example :
    (packet : List ℕ) × (encode sample ≡ some packet)
    × (decode packet ≡ returns sample)
    × ((body : List ℕ) × (packet ≡ body ++ (0 ∷ [])) × All IsNonzero body)
decode-encode_example = decode-encode sample

encode_size_example :
    (length (frame sample) ≤ length sample + length sample / 254 + 2) × All IsByte (frame sample)
encode_size_example =
    encode_size sample (frame sample) (omega arith, (omega arith, (omega arith, (omega arith, tt))))
      (encode-frame sample)

decode_total_example :
    (decode (3 ∷ 7 ∷ 9 ∷ 0 ∷ []) ≢ stuck)
    × ((message : List ℕ) → decode (3 ∷ 7 ∷ 9 ∷ 0 ∷ []) ≡ returns message → length message + 2 ≤ 4)
decode_total_example = decode_total (3 ∷ 7 ∷ 9 ∷ 0 ∷ [])

decode_overrun_example : decode (5 ∷ 1 ∷ 2 ∷ []) ≡ undefined
decode_overrun_example = decode_overrun 5 (1 ∷ 2 ∷ []) (omega arith)

-- Two packets in three chunks.
feed-wire_example :
    feed [] ((2 ∷ 7 ∷ []) ∷ (0 ∷ 3 ∷ 8 ∷ []) ∷ (9 ∷ 0 ∷ []) ∷ [])
    ≡ returns ((7 ∷ []) ∷ (8 ∷ 9 ∷ []) ∷ [], [])
unfolding blocks
feed-wire_example =
    feed-wire ((2 ∷ 7 ∷ []) ∷ (0 ∷ 3 ∷ 8 ∷ []) ∷ (9 ∷ 0 ∷ []) ∷ []) ((7 ∷ []) ∷ (8 ∷ 9 ∷ []) ∷ []) 4
      3 (omega arith) (ground arith, (ground arith, tt)) (omega arith, (omega arith, tt))
      (omega arith, (omega arith, (omega arith, tt))) refl
