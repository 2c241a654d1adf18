-- ===== src/Connection/Socket.antt =====
-- common/SocketConnection.cpp and common/SocketConnection.h. The handlers run one after the other on
-- the io_context, so each is a function of the state. Boost's `async_write` is not modelled: a
-- handler returns the packets that it hands to it, and a completion is a call of `handle_write`.
use matrixserver.Common.{
  ℕ, List, [], ◌∷◌, ◌++◌, Option, some, none, Bool, true, false, length, ltb, not, ◌&&◌,
  if◌then◌else◌,
}
use matrixserver.Cobs.Defs.{Outcome, returns, ◌>>=ₒ◌, insert_bytes, encode, ◌>>=◌}

abbrev pub receive_buffer_size : ℕ
receive_buffer_size = 200000

abbrev pub max_queued : ℕ
max_queued = 100

pub record Socket : Type 0 where
  pub write_queue : List (List ℕ)
  pub is_writing : Bool
  pub stream_buffer : List ℕ
  pub has_callback : Bool
  pub dead : Bool

abbrev pub is_empty {ℓ} : {A : Type ℓ} → List A → Bool
is_empty [] = true
is_empty (x ∷ xs) = false

-- The packet at the front is handed to `async_write`; `front` of an empty queue is undefined.
unfoldable pub do_write : Socket → Option (Socket × List (List ℕ))
do_write s = elim s.write_queue [
  | [] ↦ none
  | p ∷ ps ↦ some (record s { is_writing = true }, p ∷ [])
]

-- What `sendMessage` posts: the packet is dropped when more than 100 wait.
unfoldable pub post : Socket → List ℕ → Option (Socket × List (List ℕ))
unfolding do_write
post s packet =
    let pushed = record s { write_queue = s.write_queue ++ (packet ∷ []) } in
    if ltb max_queued (length s.write_queue)
    then some (s, [])
    else (if is_empty s.write_queue && not s.is_writing then do_write pushed else some (pushed, []))

-- The completion of a write: `pop` of an empty queue is undefined.
unfoldable pub handle_write : Socket → Bool → Option (Socket × List (List ℕ))
unfolding do_write
handle_write s error = elim s.write_queue [
  | [] ↦ none
  | p ∷ ps ↦
      let s' = record s { write_queue = ps; dead = if error then true else s.dead } in
      if is_empty ps then some (record s' { is_writing = false }, []) else do_write s'
]

-- Protobuf's serialisation is generated code: an argument.
unfoldable pub send_message :
    {M : Type 0} → (M → List ℕ) → Socket → M → Option (Socket × List (List ℕ))
send_message serialize s m = encode (serialize m) >>= λ packet. post s packet

-- The messages among the packets, for the callback; one that does not parse is passed over.
unfoldable pub parsed : {M : Type 0} → (List ℕ → Option M) → List (List ℕ) → List M
parsed parse [] = []
parsed parse (p ∷ ps) = elim (parse p) [ none ↦ parsed parse ps | some m ↦ m ∷ parsed parse ps ]

-- The messages passed to the callback, and the state; the read starts anew only without an error.
unfoldable pub handle_read :
    {M : Type 0} → (List ℕ → Option M) → Socket → Bool → List ℕ → Outcome (List M × Socket)
handle_read parse s true bytes = returns ([], record s { dead = true })
handle_read parse s false bytes = insert_bytes s.stream_buffer bytes >>=ₒ λ r.
    returns ((if s.has_callback then parsed parse r.0 else []), record s { stream_buffer = r.1 })
