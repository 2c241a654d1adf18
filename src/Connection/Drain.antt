-- ===== src/Connection/Drain.antt =====
-- The write queue of a socket empties: every packet that it took is written in the end.
use matrixserver.Common.{
  ℕ, suc, ◌≡◌, refl, sym, ap, ◌∙◌, List, [], ◌∷◌, ◌++◌, Option, some, none, Bool, true, false,
  arith, length, append_assoc, append-nil, not, if◌then◌else◌,
}
use matrixserver.Connection.Socket.{Socket, handle_write, is_empty}
use matrixserver.Connection.Queue.{History, Reach, fresh, tail_of, Reach-fresh-Ordered}

-- Writes end one after the other, each with an error or without, and each completion may start the
-- next write.
unfoldable pub complete_all : List Bool → Socket → List (List ℕ) → Option (Socket × List (List ℕ))
complete_all [] s written = some (s, written)
complete_all (error ∷ errors) s written = elim (handle_write s error) [
  | none ↦ none
  | some r ↦ complete_all errors r.0 (written ++ r.1)
]

-- Nothing waits and no write is in flight.
pub record IsIdle (s : Socket) : Type 0 where
  pub queue : s.write_queue ≡ []
  pub writing : s.is_writing ≡ false

-- What a completion leaves.
abbrev completed_socket : Bool → List (List ℕ) → Socket → Socket
completed_socket error ps s = record s {
  write_queue = ps;
  dead = if error then true else s.dead;
  is_writing = if is_empty ps then false else true;
}

handle_write_last :
    (s : Socket) (error : Bool) (p : List ℕ)
    → s.write_queue ≡ p ∷ []
    → handle_write s error ≡ some (completed_socket error [] s, [])
unfolding handle_write
handle_write_last s error p e = ground (arith, e)

handle_write_next :
    (s : Socket) (error : Bool) (p q : List ℕ) (ps : List (List ℕ))
    → s.write_queue ≡ p ∷ q ∷ ps
    → handle_write s error ≡ some (completed_socket error (q ∷ ps) s, q ∷ [])
unfolding handle_write
handle_write_next s error p q ps e = ground (arith, e)

drained :
    (errors : List Bool) (q : List (List ℕ)) (s : Socket) (written : List (List ℕ))
    → s.write_queue ≡ q
    → (q ≡ [] → s.is_writing ≡ false)
    → length errors ≡ length q
    → (t : Socket) × (complete_all errors s written ≡ some (t, written ++ tail_of q)) × IsIdle t
unfolding complete_all
drained [] [] s written e w l =
    (s, ap (λ o. some (s, o)) (sym (append-nil written)), record { queue = e; writing = w refl })
drained [] (p ∷ ps) s written e w l = absurd (ground (arith, l))
drained (error ∷ errors) [] s written e w l = absurd (ground (arith, l))
drained (error ∷ errors) (p ∷ []) s written e w l =
    let rest : length errors ≡ 0 = ground (arith, l) in
    let (t, run, idle) =
      drained errors [] (completed_socket error [] s) (written ++ []) refl (λ z. refl) rest in
    (
      t,
      rw (handle_write_last s error p e, complete_all)
          (run ∙ ap (λ o. some (t, o)) (append-nil (written ++ []))),
      idle,
    )
drained (error ∷ errors) (p ∷ q ∷ ps) s written e w l =
    let rest : length errors ≡ suc (length ps) = ground (arith, l) in
    let (t, run, idle) =
      drained errors (q ∷ ps) (completed_socket error (q ∷ ps) s) (written ++ (q ∷ [])) refl
        (λ z. absurd (ground (arith, z))) rest in
    (
      t,
      rw (handle_write_next s error p q ps e, complete_all)
          (run ∙ ap (λ o. some (t, o)) (append_assoc written (q ∷ []) ps)),
      idle,
    )

-- On every connection that a sequence of posts and completions reaches, as many completions as
-- packets are queued, with or without errors, all happen, and after them every packet that was
-- accepted has been handed to `async_write`, in order, none is queued and no write is in flight.
pub drain_lem :
    (h : History)
    → Reach fresh h
    → (errors : List Bool) → length errors ≡ length h.socket.write_queue
    → (t : Socket) × (complete_all errors h.socket h.written ≡ some (t, h.accepted)) × IsIdle t
drain_lem h r errors l =
    let o = Reach-fresh-Ordered h r in
    let (t, run, idle) =
      drained errors h.socket.write_queue h.socket h.written refl
        (λ z. o.valid.busy ∙ ap (λ q. not (is_empty q)) z) l in
    (t, run ∙ ap (λ w. some (t, w)) o.order, idle)
