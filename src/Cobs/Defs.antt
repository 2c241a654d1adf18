-- ===== src/Cobs/Defs.antt =====
-- `Cobs::encode`, `Cobs::decode` and `Cobs::insertBytesAndReturnDecodedPackets`.
use matrixserver.Common.{
  ℕ, zero, suc, ◌+◌, ◌-◌, ◌/◌, ◌%◌, ◌<◌, List, [], ◌∷◌, ◌++◌, Option, some, none, Bool, true, false,
  length, replicate, ltb, ◌==◌, not, ◌&&◌, if◌then◌else◌,
}
use matrixserver.Common.Sequences.{set_at, resize}

abbrev pub IsByte : ℕ → Type 0
IsByte b = b < 256

-- The locals of the loop in `encode`.
pub record EncodeState : Type 0 where
  pub result : List ℕ
  pub write_index : ℕ
  pub code_index : ℕ
  pub code : ℕ

infixl 5 ◌>>=◌
abbrev pub ◌>>=◌ {ℓ κ} : {A : Type ℓ} {B : Type κ} → Option A → (A → Option B) → Option B
none >>= f = none
some a >>= f = f a

-- A full block ends with no zero of its own; `none` is the exception of `at`.
close_full : EncodeState → Option EncodeState
close_full s =
    if s.code == 0xff
    then (do
      r ← set_at s.result s.code_index s.code
      some (record {
        result = r;
        write_index = s.write_index + 1;
        code_index = s.write_index;
        code = 1;
      }))
    else some s

-- One round of the loop on the byte that `readIndex` points to.
unfoldable pub encode_step : EncodeState → ℕ → Option EncodeState
unfolding close_full
encode_step s b =
    if b == 0
    then (do
      r ← set_at s.result s.code_index s.code
      some (record {
        result = r;
        write_index = s.write_index + 1;
        code_index = s.write_index;
        code = 1;
      }))
    else (do
      r ← set_at s.result s.write_index b
      close_full (record {
        result = r;
        write_index = s.write_index + 1;
        code_index = s.code_index;
        code = (s.code + 1) % 256;
      }))

unfoldable pub encode_loop : EncodeState → List ℕ → Option EncodeState
encode_loop s [] = some s
encode_loop s (b ∷ bs) = do s' ← encode_step s b; encode_loop s' bs

unfoldable pub encode_buffer_size : ℕ → ℕ
encode_buffer_size n = n + (n + 253) / 254

unfoldable pub encode_start : ℕ → EncodeState
encode_start n = record {
  result = replicate (encode_buffer_size n + 100) 0;
  write_index = 1;
  code_index = 0;
  code = 1;
}

-- After the loop: the last code byte, and the cut behind the zero delimiter.
unfoldable pub encode_finish : EncodeState → Option (List ℕ)
encode_finish s = do r ← set_at s.result s.code_index s.code; some (resize r (s.write_index + 1) 0)

unfoldable pub encode : List ℕ → Option (List ℕ)
encode input = do s ← encode_loop (encode_start (length input)) input; encode_finish s

-- `undefined` is a read behind the end of the input, or `pop_back` on the empty string; `stuck` is
-- no behaviour of the code: the fuel of the model ran out.
pub data Outcome {ℓ} (A : Type ℓ) : Type ℓ where
  returns : A → Outcome A
  undefined : Outcome A
  stuck : Outcome A

infixl 5 ◌>>=ₒ◌
abbrev pub ◌>>=ₒ◌ {ℓ κ} : {A : Type ℓ} {B : Type κ} → Outcome A → (A → Outcome B) → Outcome B
returns a >>=ₒ f = f a
undefined >>=ₒ f = undefined
stuck >>=ₒ f = stuck

-- `for (i = 1; i < code; i++)`, with the `n` rounds that are left: what is unread, and the result.
unfoldable pub copy_block : ℕ → List ℕ → List ℕ → Outcome (List ℕ × List ℕ)
copy_block zero input result = returns (input, result)
copy_block (suc n) [] result = undefined
copy_block (suc n) (b ∷ input) result = copy_block n input (result ++ (b ∷ []))

abbrev pub is_end : List ℕ → Bool
is_end [] = true
is_end (b ∷ bs) = false

-- The zero that a block stands for, unless it was full or ends the input.
unfoldable pub close_block : ℕ → List ℕ → List ℕ → List ℕ
close_block code input result =
    if not (code == 0xff) && not (is_end input) then result ++ (0 ∷ []) else result

unfoldable pub decode_loop : ℕ → List ℕ → List ℕ → Outcome (List ℕ)
decode_loop fuel [] result = returns result
decode_loop zero (code ∷ input) result = stuck
decode_loop (suc fuel) (code ∷ input) result =
    copy_block (code - 1) input result >>=ₒ λ p. decode_loop fuel p.0 (close_block code p.0 p.1)

unfoldable pub pop_back : List ℕ → Outcome (List ℕ)
pop_back [] = undefined
pop_back (b ∷ []) = returns []
pop_back (b ∷ c ∷ bs) = pop_back (c ∷ bs) >>=ₒ λ r. returns (b ∷ r)

-- Each round of the loop reads a byte at least, so the length of the input is fuel enough.
unfoldable pub decode : List ℕ → Outcome (List ℕ)
decode input = decode_loop (length input) input [] >>=ₒ λ r. pop_back r

abbrev pub max_stream_buffer_size : ℕ
max_stream_buffer_size = 1048576

-- The loop over the received bytes: the packets that end in them, and what stays in the buffer.
unfoldable pub insert_loop : List ℕ → List ℕ → List (List ℕ) → Outcome (List (List ℕ) × List ℕ)
insert_loop buffer [] result = returns (result, buffer)
insert_loop buffer (b ∷ bs) result =
    let kept = insert_loop (buffer ++ (b ∷ [])) bs result in
    let decoded = (decode (buffer ++ (0 ∷ [])) >>=ₒ λ p. insert_loop [] bs (result ++ (p ∷ []))) in
    let skipped = insert_loop [] bs result in
    if not (b == 0)
    then kept
    else (if ltb 2 (length (buffer ++ (0 ∷ []))) then decoded else skipped)

-- The buffer is emptied, and nothing returned, when the bytes would take it over its limit.
unfoldable pub insert_bytes : List ℕ → List ℕ → Outcome (List (List ℕ) × List ℕ)
insert_bytes buffer input =
    if ltb max_stream_buffer_size (length buffer + length input)
    then returns ([], [])
    else insert_loop buffer input []
