-- ===== src/Connection/Tests.antt =====
-- Runs of the two queued connections at concrete inputs.
use matrixserver.Common.{
  ℕ, ◌≡◌, ◌≢◌, refl, List, [], ◌∷◌, ◌++◌, Option, some, none, Bool, true, false, arith, ◌≤◌, ◌<◌,
  ◌⊎◌,
}
use matrixserver.Protocol.{Text}
use matrixserver.Connection.StoredQueues.{Stored, put}
use matrixserver.Cobs.Defs.{
  returns, encode, encode_loop, encode_step, encode_start, encode_buffer_size, encode_finish,
}
use matrixserver.Connection.Socket.{Socket, post, handle_write, send_message}
use matrixserver.Connection.Queue.{
  History, Reach, here, next, posted, completed, fresh, Ordered, Reach-fresh-Ordered, Reach-defined,
}
use matrixserver.Connection.Drain.{complete_all, IsIdle, drain_lem}
use matrixserver.Connection.Receive.{handle_reads}
use matrixserver.Connection.Sending.{Sends, begins, takes, completes, receive-send}
use matrixserver.Connection.Session.{
  Session, send_msg, on_write, send_all, IsBusy, send_msg_lem, on_write_failed,
}

abbrev one_queued : History
one_queued = record {
  socket = record fresh.socket { write_queue = (7 ∷ []) ∷ []; is_writing = true };
  written = (7 ∷ []) ∷ [];
  accepted = (7 ∷ []) ∷ [];
}

abbrev all_written : History
all_written = record {
  socket = record fresh.socket { write_queue = []; is_writing = false };
  written = (7 ∷ []) ∷ [];
  accepted = (7 ∷ []) ∷ [];
}

-- A packet is posted and written.
written : Reach fresh all_written
unfolding post handle_write
written =
    next (next here (posted fresh (7 ∷ []) one_queued.socket ((7 ∷ []) ∷ []) (omega arith) refl))
      (completed one_queued false all_written.socket [] refl refl)

Reach-fresh-Ordered_example : Ordered all_written
Reach-fresh-Ordered_example = Reach-fresh-Ordered all_written written

Reach-defined_example :
    ((packet : List ℕ) → post all_written.socket packet ≢ none)
    × ((error : Bool)
        → all_written.socket.is_writing ≡ true
        → handle_write all_written.socket error ≢ none)
Reach-defined_example = Reach-defined all_written written

-- A packet is posted and its write is under way.
queued : Reach fresh one_queued
unfolding post
queued = next here (posted fresh (7 ∷ []) one_queued.socket ((7 ∷ []) ∷ []) (omega arith) refl)

drain_lem_example :
    (t : Socket) × (complete_all (true ∷ []) one_queued.socket one_queued.written
      ≡ some (t, one_queued.accepted))
    × IsIdle t
drain_lem_example = drain_lem one_queued queued (true ∷ []) refl

-- Messages are byte lists and the serialisation is the identity.
abbrev bytes_of : List ℕ → List ℕ
bytes_of m = m

abbrev message_from : List ℕ → Option (List ℕ)
message_from m = some m

abbrev waiting : Socket
waiting = record fresh.socket { has_callback = true }

abbrev packet : List ℕ
packet = 2 ∷ 7 ∷ 1 ∷ 0 ∷ []

-- The message 7, 0 is sent and its packet written.
sent_one : Sends bytes_of fresh.socket (packet ∷ []) ((7 ∷ 0 ∷ []) ∷ [])
unfolding send_message post handle_write encode encode_loop encode_step encode_start
    encode_buffer_size encode_finish
sent_one =
    completes false []
      (takes {t = record fresh.socket { write_queue = packet ∷ []; is_writing = true }} (7 ∷ 0 ∷ [])
        (packet ∷ []) begins (omega arith) refl)
      refl refl

-- Its packet arrives in two chunks.
receive-send_example :
    handle_reads message_from waiting ((2 ∷ []) ∷ (7 ∷ 1 ∷ 0 ∷ []) ∷ [])
    ≡ returns ((7 ∷ 0 ∷ []) ∷ [], record waiting { stream_buffer = [] })
receive-send_example =
    receive-send bytes_of message_from (λ m. refl) fresh.socket waiting (packet ∷ [])
      ((2 ∷ []) ∷ (7 ∷ 1 ∷ 0 ∷ []) ∷ []) ((7 ∷ 0 ∷ []) ∷ []) sent_one refl refl refl
      (ground arith, tt) (omega arith, tt) (omega arith, (omega arith, tt)) refl

abbrev crowded : Session
crowded = record {
  write_queue = (1 ∷ []) ∷ (2 ∷ []) ∷ (3 ∷ []) ∷ [];
  is_writing = true;
  closed = 0;
  reading = true;
}

send_msg_lem_example :
    (send_msg crowded (9 ∷ []) true ≢ none)
    × ((t : Session) (out : List (List ℕ))
        → send_msg crowded (9 ∷ []) true ≡ some (t, out)
        → IsBusy t
          × (((true ≡ true) × (2 < 3) × (t ≡ crowded) × (out ≡ []))
              ⊎ (((true ≡ false) ⊎ (3 ≤ 2))
                  × (t.write_queue ≡ crowded.write_queue ++ ((9 ∷ []) ∷ []))
                  × (out ≡ []))))
send_msg_lem_example = send_msg_lem crowded (9 ∷ []) true refl

on_write_failed_example :
    (t : Session) × (on_write crowded true ≡ some (t, []))
    × (t.closed ≡ 1)
    × ((u : Session) × (send_all t (((9 ∷ []), false) ∷ []) ≡ some (u, [])))
on_write_failed_example = on_write_failed crowded (((9 ∷ []), false) ∷ []) refl

abbrev server_name : Text
server_name = 1 ∷ []

abbrev client_name : Text
client_name = 2 ∷ []

abbrev fresh_name : Text
fresh_name = 3 ∷ 3 ∷ 3 ∷ 3 ∷ 3 ∷ 3 ∷ 3 ∷ 3 ∷ 3 ∷ 3 ∷ 3 ∷ 3 ∷ 3 ∷ 3 ∷ 3 ∷ 3 ∷ 3 ∷ 3 ∷ 3 ∷ 3 ∷ []

abbrev listening : Stored
listening = put server_name (some []) (λ name. none)
