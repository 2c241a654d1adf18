-- ===== src/Connection/StoredQueues.antt =====
-- A store of queues that does what the message queues of common/IpcConnection.cpp are documented to do.
use matrixserver.Common.{
  ◌≡◌, ◌≢◌, refl, List, [], ◌∷◌, ◌++◌, Option, some, none, Bool, true, false, length, ltb, arith,
  if◌then◌else◌, inl, inr, Bool-cases,
}
use matrixserver.Protocol.{Text, text_eq}
use matrixserver.Params.TextMap.{text_eq_iff}
use matrixserver.Connection.Ipc.{Call, answers, throws, blocks, MessageQueues}
use matrixserver.Connection.Handshake.{MessageQueueLaws}

abbrev pub Stored : Type 0
Stored = Text → Option (List Text)

abbrev pub put : Text → Option (List Text) → Stored → Stored
put name content queues other = if text_eq other name then content else queues other

abbrev send_to : Text → Text → Stored → Option (List Text) → Call Stored
send_to name message queues none = throws
send_to name message queues (some messages) =
    if ltb (length messages) 10
    then answers (put name (some (messages ++ (message ∷ []))) queues)
    else blocks

abbrev receive_from : Text → Stored → Option (List Text) → Call (Text × Stored)
receive_from name queues none = throws
receive_from name queues (some []) = blocks
receive_from name queues (some (m ∷ ms)) = answers (m, put name (some ms) queues)

abbrev is_some : Option (List Text) → Bool
is_some none = false
is_some (some messages) = true

abbrev created_queues : Text → Stored → Option (List Text) → Stored
created_queues name queues none = put name (some []) queues
created_queues name queues (some messages) = queues

abbrev pub stored_queues : MessageQueues Stored
stored_queues = record {
  is_there = λ name queues. is_some (queues name);
  remove = λ name queues. put name none queues;
  open_or_create = λ name queues. created_queues name queues (queues name);
  send = λ name message queues. send_to name message queues (queues name);
  receive = λ name queues. receive_from name queues (queues name);
}

pub put_here :
    (name : Text) (content : Option (List Text)) (queues : Stored)
    → put name content queues name ≡ content
put_here name content queues = rw ((text_eq_iff name name).1 refl) refl

pub put_other :
    (name : Text) (content : Option (List Text)) (queues : Stored) (other : Text)
    → other ≢ name
    → put name content queues other ≡ queues other
put_other name content queues other h = elim (Bool-cases (text_eq other name)) [
  | inl e ↦ absurd (h ((text_eq_iff other name).0 e))
  | inr e ↦ rw e refl
]

unfoldable pub stored_laws : MessageQueueLaws stored_queues
stored_laws = record {
  holds = λ name queues. queues name;
  found = λ name queues messages e. rw e refl;
  created = λ name queues e. rw e (put_here name (some []) queues, put_other name (some []) queues);
  sent = λ name message queues messages e short.
      let content = some (messages ++ (message ∷ [])) in
      let room : ltb (length messages) 10 ≡ true = ground (arith, short) in
      (
        put name content queues,
        rw e (rw room refl),
        put_here name content queues,
        put_other name content queues,
      );
  received = λ name message queues messages e. (
    put name (some messages) queues,
    rw e refl,
    put_here name (some messages) queues,
    put_other name (some messages) queues,
  );
}
