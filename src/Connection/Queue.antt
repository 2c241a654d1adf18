-- ===== src/Connection/Queue.antt =====
-- The write queue of a socket: one write at a time, and packets leave in the order they came in.
use matrixserver.Common.{
  ℕ, ◌+◌, ◌≤◌, ◌<◌, ◌≡◌, ◌≢◌, refl, sym, ap, ◌∙◌, List, [], ◌∷◌, ◌++◌, some, none, Bool, true,
  false, arith, length, length-append, not, append_assoc, append-nil,
}
use matrixserver.Connection.Socket.{Socket, post, handle_write, is_empty, max_queued}

-- A write is in flight exactly when the queue has a front, and the queue is bounded.
pub record IsValid (s : Socket) : Type 0 where
  pub busy : s.is_writing ≡ not (is_empty s.write_queue)
  pub bounded : length s.write_queue ≤ max_queued + 1

abbrev pub tail_of : List (List ℕ) → List (List ℕ)
tail_of [] = []
tail_of (p ∷ ps) = ps

-- The history of a socket: what was handed to `async_write`, and what the queue took.
pub record History : Type 0 where
  pub socket : Socket
  pub written : List (List ℕ)
  pub accepted : List (List ℕ)

-- A packet is posted and taken, or posted and dropped, or a write ends. A completion comes only while
-- a write is in flight.
pub data Step : History → History → Type 0 where
  posted :
      (h : History) (packet : List ℕ) (s : Socket) (out : List (List ℕ))
      → length h.socket.write_queue ≤ max_queued
      → post h.socket packet ≡ some (s, out)
      → Step h (record {
        socket = s;
        written = h.written ++ out;
        accepted = h.accepted ++ (packet ∷ []);
      })
  dropped :
      (h : History) (packet : List ℕ) (s : Socket) (out : List (List ℕ))
      → max_queued < length h.socket.write_queue
      → post h.socket packet ≡ some (s, out)
      → Step h (record { socket = s; written = h.written ++ out; accepted = h.accepted })
  completed :
      (h : History) (error : Bool) (s : Socket) (out : List (List ℕ))
      → h.socket.is_writing ≡ true
      → handle_write h.socket error ≡ some (s, out)
      → Step h (record { socket = s; written = h.written ++ out; accepted = h.accepted })

pub data Reach (h : History) : History → Type 0 where
  here : Reach h h
  next : {t u : History} → Reach h t → Step t u → Reach h u

-- What was handed to `async_write`, then the queue behind its front, is what was accepted.
pub record Ordered (h : History) : Type 0 where
  pub valid : IsValid h.socket
  pub order : h.written ++ tail_of h.socket.write_queue ≡ h.accepted

abbrev Took : Socket → List ℕ → Socket → List (List ℕ) → Type 0
Took s packet t out =
    IsValid t
    × (length s.write_queue ≤ max_queued
        → out ++ tail_of t.write_queue ≡ tail_of s.write_queue ++ (packet ∷ []))
    × (max_queued < length s.write_queue → (t ≡ s) × (out ≡ []))

post-Took :
    (q : List (List ℕ)) (s t : Socket) (packet : List ℕ) (out : List (List ℕ))
    → s.write_queue ≡ q
    → IsValid s
    → post s packet ≡ some (t, out)
    → Took s packet t out
unfolding post
post-Took [] s t packet out e v r = ground (arith, length-append s.write_queue (packet ∷ []))
post-Took (p ∷ ps) s t packet out e v r = ground (arith, length-append s.write_queue (packet ∷ []))

post-ne-none :
    (q : List (List ℕ)) (s : Socket) (packet : List ℕ) → s.write_queue ≡ q → post s packet ≢ none
unfolding post
post-ne-none [] s packet e = ground arith
post-ne-none (p ∷ ps) s packet e = ground arith

-- The end of a write, with another packet behind it or none.
handle_write-IsValid :
    (q : List (List ℕ)) (s t : Socket) (error : Bool) (out : List (List ℕ))
    → s.write_queue ≡ q
    → IsValid s
    → handle_write s error ≡ some (t, out)
    → IsValid t × (out ++ tail_of t.write_queue ≡ tail_of s.write_queue)
unfolding handle_write
handle_write-IsValid [] s t error out e v r = ground arith
handle_write-IsValid (p ∷ []) s t error out e v r = ground arith
handle_write-IsValid (p ∷ q ∷ ps) s t error out e v r = ground arith

handle_write-ne-none :
    (q : List (List ℕ)) (s : Socket) (error : Bool)
    → s.write_queue ≡ q
    → IsValid s
    → s.is_writing ≡ true
    → handle_write s error ≢ none
unfolding handle_write
handle_write-ne-none [] s error e v w = ground arith
handle_write-ne-none (p ∷ []) s error e v w = ground arith
handle_write-ne-none (p ∷ q ∷ ps) s error e v w = ground arith

Step-Ordered : {h k : History} → Step h k → Ordered h → Ordered k
Step-Ordered (posted h packet s out fits e) o =
    let (v, took, _) = post-Took h.socket.write_queue h.socket s packet out refl o.valid e in
    record {
      valid = v;
      order =
          append_assoc h.written out (tail_of s.write_queue)
          ∙ ap (λ t. h.written ++ t) (took fits)
          ∙ sym (append_assoc h.written (tail_of h.socket.write_queue) (packet ∷ []))
          ∙ ap (λ t. t ++ (packet ∷ [])) o.order;
    }
Step-Ordered (dropped h packet s out full e) o =
    let (v, _, same) = post-Took h.socket.write_queue h.socket s packet out refl o.valid e in
    record { valid = v; order = ground (arith, same full, o.order, append-nil h.written) }
Step-Ordered (completed h error s out w e) o =
    let (v, kept) = handle_write-IsValid h.socket.write_queue h.socket s error out refl o.valid e in
    record {
      valid = v;
      order =
          append_assoc h.written out (tail_of s.write_queue)
          ∙ ap (λ t. h.written ++ t) kept
          ∙ o.order;
    }

-- A new connection.
abbrev pub fresh : History
fresh = record {
  socket = record {
    write_queue = [];
    is_writing = false;
    stream_buffer = [];
    has_callback = false;
    dead = false;
  };
  written = [];
  accepted = [];
}

Reach-Ordered : {h k : History} → Ordered h → Reach h k → Ordered k
Reach-Ordered o here = o
Reach-Ordered o (next r st) = Step-Ordered st (Reach-Ordered o r)

fresh-Ordered : Ordered fresh
fresh-Ordered = record { valid = record { busy = refl; bounded = omega arith }; order = refl }

-- After any sequence of posts and completions on a new connection: a write is in flight exactly when
-- a packet is queued, at most 101 packets are queued, and the packets handed to `async_write`
-- followed by those behind the queue's front are the accepted ones, in order.
pub Reach-fresh-Ordered : (h : History) → Reach fresh h → Ordered h
Reach-fresh-Ordered h r = Reach-Ordered fresh-Ordered r

-- On every connection that such a sequence reaches, `post` and the completion of a write in flight
-- never touch the front of an empty queue.
pub Reach-defined :
    (h : History)
    → Reach fresh h
    → ((packet : List ℕ) → post h.socket packet ≢ none)
      × ((error : Bool) → h.socket.is_writing ≡ true → handle_write h.socket error ≢ none)
Reach-defined h r = (
  λ packet. post-ne-none h.socket.write_queue h.socket packet refl,
  λ error w.
      handle_write-ne-none h.socket.write_queue h.socket error refl (Reach-fresh-Ordered h r).valid
        w,
)
