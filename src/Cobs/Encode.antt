-- ===== src/Cobs/Encode.antt =====
-- `Cobs::encode` writes within its buffer and produces the frame of the message.
use matrixserver.Common.{
  ℕ, zero, suc, ◌+◌, ◌/◌, ◌≤◌, ◌<◌, ◌≡◌, ◌≢◌, refl, sym, ap, ◌∙◌, List, [], ◌∷◌, ◌++◌, Option, some,
  arith, length, length-append, ◌==◌, append_assoc, replicate, Bool-cases, inl, inr,
}
use matrixserver.Common.Sequences.{set_at, set_at-append, resize_cut}
use matrixserver.Cobs.Defs.{
  EncodeState, ◌>>=◌, encode_step, encode_loop, encode_start, encode_finish, encode,
  encode_buffer_size,
}
use matrixserver.Cobs.Frame.{blocks, frame}

-- The state in the middle of a run: `out` is complete, then come the hole for the code byte, the
-- open block `cur` and `k` untouched zeros.
abbrev running : List ℕ → ℕ → List ℕ → ℕ → EncodeState
running out x cur k = record {
  result = out ++ (x ∷ (cur ++ replicate k 0));
  write_index = length out + 1 + length cur;
  code_index = length out;
  code = length cur + 1;
}

put_code :
    (out cur : List ℕ) (x v k : ℕ)
    → set_at (out ++ (x ∷ (cur ++ replicate (suc k) 0))) (length out) v
      ≡ some ((out ++ (v ∷ cur)) ++ (0 ∷ replicate k 0))
put_code out cur x v k =
    set_at-append out (cur ++ replicate (suc k) 0) (length out) x v refl
    ∙ ap some (sym (append_assoc out (v ∷ cur) (0 ∷ replicate k 0)))

put_byte :
    (out cur : List ℕ) (x b k i : ℕ)
    → i ≡ length out + 1 + length cur
    → set_at (out ++ (x ∷ (cur ++ replicate (suc k) 0))) i b
      ≡ some (out ++ (x ∷ ((cur ++ (b ∷ [])) ++ replicate k 0)))
put_byte out cur x b k i e =
    rw
      (
        ← append_assoc out (x ∷ cur) (replicate (suc k) 0),
        append_assoc cur (b ∷ []) (replicate k 0),
        ← append_assoc out (x ∷ cur) (b ∷ replicate k 0),
      )
      (set_at-append (out ++ (x ∷ cur)) (replicate k 0) i 0 b
        (omega (arith, length-append out (x ∷ cur))))

step_zero :
    (out cur : List ℕ) (x k : ℕ)
    → encode_step (running out x cur (suc k)) 0
      ≡ some (running (out ++ ((length cur + 1) ∷ cur)) 0 [] k)
unfolding encode_step
step_zero out cur x k =
    ground
      (arith, put_code out cur x (length cur + 1) k, length-append out ((length cur + 1) ∷ cur))

step_byte :
    (out cur : List ℕ) (x b k : ℕ)
    → b ≢ 0
    → length cur < 253
    → encode_step (running out x cur (suc k)) b ≡ some (running out x (cur ++ (b ∷ [])) k)
unfolding encode_step
step_byte out cur x b k n h =
    ground
      (arith, put_byte out cur x b k (length out + 1 + length cur) refl, length-append cur (b ∷ []))

step_full :
    (out cur : List ℕ) (x b k : ℕ)
    → b ≢ 0
    → length cur ≡ 253
    → encode_step (running out x cur (suc (suc k))) b
      ≡ some (running (out ++ (255 ∷ (cur ++ (b ∷ [])))) 0 [] k)
unfolding encode_step
step_full out cur x b k n h = ground (
  arith,
  put_byte out cur x b (suc k) (length out + 1 + length cur) refl,
  put_code out (cur ++ (b ∷ [])) x 255 k,
  length-append cur (b ∷ []),
  length-append out (255 ∷ (cur ++ (b ∷ []))),
)

bind_assoc_step :
    (s s' : EncodeState) (b : ℕ) (bs : List ℕ)
    → encode_step s b ≡ some s'
    → encode_loop s (b ∷ bs) ≡ encode_loop s' bs
unfolding encode_loop
bind_assoc_step s s' b bs e = rw e

-- What the loop and the lines behind it write, from any state in the middle of a run.
abbrev finished : EncodeState → List ℕ → Option (List ℕ)
finished s bs = encode_loop s bs >>= encode_finish

finished_step :
    (s s' : EncodeState) (b : ℕ) (bs : List ℕ)
    → encode_step s b ≡ some s'
    → finished s (b ∷ bs) ≡ finished s' bs
finished_step s s' b bs e = ap (λ r. r >>= encode_finish) (bind_assoc_step s s' b bs e)

finished_end :
    (out cur : List ℕ) (x k : ℕ)
    → finished (running out x cur (suc k)) [] ≡ some (out ++ (blocks cur [] ++ (0 ∷ [])))
unfolding encode_loop encode_finish blocks
finished_end out cur x k =
    let all : List ℕ = out ++ ((length cur + 1) ∷ cur) in
    ground (
      arith,
      put_code out cur x (length cur + 1) k,
      append_assoc all (0 ∷ []) (replicate k 0),
      resize_cut (all ++ (0 ∷ [])) (replicate k 0) (length out + 1 + length cur + 1) 0,
      length-append all (0 ∷ []),
      length-append out ((length cur + 1) ∷ cur),
      append_assoc out ((length cur + 1) ∷ cur) (0 ∷ []),
    )

-- Room for `n` bytes to come when `c` stand in the open block.
abbrev room : ℕ → ℕ → ℕ
room n c = n + (n + c) / 254 + 1

finished-blocks :
    (bs out cur : List ℕ) (x k : ℕ)
    → length cur ≤ 253
    → room (length bs) (length cur) ≤ k
    → finished (running out x cur k) bs ≡ some (out ++ (blocks cur bs ++ (0 ∷ [])))
unfolding blocks
finished-blocks [] out cur x zero h r = absurd (omega arith)
finished-blocks [] out cur x (suc k) h r = finished_end out cur x k
finished-blocks (b ∷ bs) out cur x zero h r = absurd (omega arith)
finished-blocks (b ∷ bs) out cur x (suc zero) h r = absurd (omega arith)
finished-blocks (b ∷ bs) out cur x (suc (suc k)) h r = elim (Bool-cases (b == 0)) [
  | inl z ↦ ground (
    arith,
    finished_step (running out x cur (suc (suc k)))
        (running (out ++ ((length cur + 1) ∷ cur)) 0 [] (suc k)) b bs,
    step_zero out cur x (suc k),
    finished-blocks bs (out ++ ((length cur + 1) ∷ cur)) [] 0 (suc k),
    append_assoc out ((length cur + 1) ∷ cur) (blocks [] bs ++ (0 ∷ [])),
    append_assoc cur (blocks [] bs) (0 ∷ []),
  )
  | inr n ↦ elim (Bool-cases (length cur == 253)) [
    | inl f ↦ ground (
      arith,
      finished_step (running out x cur (suc (suc k)))
          (running (out ++ (255 ∷ (cur ++ (b ∷ [])))) 0 [] k) b bs,
      step_full out cur x b k,
      finished-blocks bs (out ++ (255 ∷ (cur ++ (b ∷ [])))) [] 0 k,
      append_assoc out (255 ∷ (cur ++ (b ∷ []))) (blocks [] bs ++ (0 ∷ [])),
      append_assoc cur (b ∷ []) (blocks [] bs ++ (0 ∷ [])),
      append_assoc cur (b ∷ blocks [] bs) (0 ∷ []),
    )
    | inr l ↦ ground (
      arith,
      finished_step (running out x cur (suc (suc k))) (running out x (cur ++ (b ∷ [])) (suc k)) b
          bs,
      step_byte out cur x b (suc k),
      finished-blocks bs out (cur ++ (b ∷ [])) x (suc k),
      length-append cur (b ∷ []),
    )
  ]
]

-- `encode` raises no exception of `at` on any message, and writes exactly its frame: the code
-- bytes and blocks, then one zero delimiter.
pub encode-frame : (message : List ℕ) → encode message ≡ some (frame message)
unfolding encode encode_start encode_buffer_size
encode-frame message =
    let n = length message in
    let m = n + (n + 253) / 254 + 99 in
    let e : n + (n + 253) / 254 + 100 ≡ suc m = omega arith in
    rw e (finished-blocks message [] [] 0 m (omega arith) (omega arith))
