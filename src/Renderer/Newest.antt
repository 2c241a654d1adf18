-- ===== src/Renderer/Newest.antt =====
-- The operations of the browser renderer keep the newest session the active one.
use matrixserver.Common.{
  ℕ, zero, suc, ◌<◌, ◌≡◌, ◌≢◌, refl, sym, ap, ◌∙◌, subst, List, [], ◌∷◌, ◌++◌, Option, some, none,
  Bool, true, false, length, ◌==◌, ==_iff, get_elem?, set, arith, length-set, length-append,
  get_elem?-set_self, get_elem?-set_ne, inl, inr, Bool-cases, Option-cases,
}
use matrixserver.Connection.Session.{Session, send_msg}
use matrixserver.Renderer.WebSocket.{
  WsRenderer, new_session, on_connection, put_session, send_to_active,
}

-- The active session is the last one that was accepted, and it has not closed.
unfoldable pub IsNewest : WsRenderer → Type 0
IsNewest w =
    (i : ℕ)
    → w.active_session ≡ some i
    → (s : Session) × (get_elem? w.sessions i ≡ some s)
      × (s.closed ≡ 0)
      × (suc i ≡ length w.sessions)

pub get_elem?-append :
    (ss : List Session) (s : Session) → get_elem? (ss ++ (s ∷ [])) (length ss) ≡ some s
get_elem?-append [] s = refl
get_elem?-append (t ∷ ss) s = get_elem?-append ss s

pub get_elem?-bound :
    (ss : List Session) (i : ℕ) (s : Session) → get_elem? ss i ≡ some s → i < length ss
get_elem?-bound [] i s e = absurd (ground (arith, e))
get_elem?-bound (t ∷ ss) zero s e = omega arith
get_elem?-bound (t ∷ ss) (suc i) s e = omega (arith, get_elem?-bound ss i s e)

some_eq : {a b : ℕ} → some a ≡ some b → a ≡ b
some_eq e = ground (arith, e)

pub on_connection-IsNewest :
    (error : Bool) (w : WsRenderer) → IsNewest w → IsNewest (on_connection error w)
unfolding IsNewest on_connection
on_connection-IsNewest true w n i e = n i e
on_connection-IsNewest false w n i e =
    subst
      (λ (j : ℕ).
        (s : Session) × (get_elem? (w.sessions ++ (new_session ∷ [])) j ≡ some s)
        × (s.closed ≡ 0)
        × (suc j ≡ length (w.sessions ++ (new_session ∷ []))))
      (some_eq e)
      (
        new_session,
        get_elem?-append w.sessions new_session,
        refl,
        omega (arith, length-append w.sessions (new_session ∷ [])),
      )

-- A session is replaced by one that has closed as often.
replaced :
    (w : WsRenderer) (j : ℕ) (s t : Session)
    → IsNewest w
    → get_elem? w.sessions j ≡ some s
    → t.closed ≡ s.closed
    → (i : ℕ) → w.active_session ≡ some i
    → (u : Session) × (get_elem? (set w.sessions j t) i ≡ some u)
      × (u.closed ≡ 0)
      × (suc i ≡ length (set w.sessions j t))
unfolding IsNewest
replaced w j s t n g c i e =
    let (u, at, unclosed, newest) = n i e in
    let size : suc i ≡ length (set w.sessions j t) = newest ∙ sym (length-set w.sessions j t) in
    elim (Bool-cases (i == j)) [
      | inl same ↦
          let here : i ≡ j = (==_iff i j).0 same in
          let known : some u ≡ some s = sym at ∙ ap (get_elem? w.sessions) here ∙ g in
          let bound = get_elem?-bound w.sessions j s g in
          (
            t,
            ap (get_elem? (set w.sessions j t)) here ∙ get_elem?-set_self w.sessions j t bound,
            c ∙ zero_of known unclosed,
            size,
          )
      | inr other ↦
          let apart : j ≢ i = ground (arith, other) in
          (u, get_elem?-set_ne w.sessions t apart ∙ at, unclosed, size)
    ]
  where
    zero_of : {u s : Session} → some u ≡ some s → u.closed ≡ 0 → s.closed ≡ 0
    zero_of k z = ground (arith, k, z)

pub put_session-IsNewest :
    (w : WsRenderer) (j : ℕ) (s t : Session)
    → IsNewest w
    → get_elem? w.sessions j ≡ some s
    → IsNewest (put_session j s t w)
unfolding IsNewest put_session
put_session-IsNewest w j s t n g i e = elim (Bool-cases (s.closed == t.closed)) [
  | inl same ↦
      let kept : w.active_session ≡ some i = ground (arith, same, e) in
      replaced w j s t n g (sym ((==_iff s.closed t.closed).0 same)) i kept
  | inr other ↦ absurd (ground (arith, other, e))
]

send_msg_closed :
    (q : List (List ℕ)) (s t : Session) (msg : List ℕ) (droppable : Bool) (out : List (List ℕ))
    → s.write_queue ≡ q
    → send_msg s msg droppable ≡ some (t, out)
    → t.closed ≡ s.closed
unfolding send_msg
send_msg_closed [] s t msg droppable out e r = ground arith
send_msg_closed (m ∷ ms) s t msg droppable out e r = ground arith

-- The result of an operation that may be undefined.
abbrev pub Newest : Option WsRenderer → Type 0
Newest none = Unit
Newest (some w) = IsNewest w

pub send_to_active-IsNewest :
    (bytes : List ℕ) (droppable : Bool) (w : WsRenderer)
    → IsNewest w
    → Newest (send_to_active bytes droppable w)
unfolding send_to_active IsNewest
send_to_active-IsNewest bytes droppable w n = elim (Option-cases w.active_session) [
  | inl e ↦ rw (e, send_to_active) n
  | inr (i, e) ↦ elim (Option-cases (get_elem? w.sessions i)) [
    | inl g ↦ rw (e, send_to_active) (rw (g, send_to_active) tt)
    | inr (s, g) ↦ elim (Option-cases (send_msg s bytes droppable)) [
      | inl r ↦ rw (e, send_to_active) (rw (g, send_to_active) (rw (r, send_to_active) tt))
      | inr ((t, out), r) ↦
          let same = send_msg_closed s.write_queue s t bytes droppable out refl r in
          rw (e, send_to_active)
            (rw (g, send_to_active) (rw (r, send_to_active) (replaced w i s t n g same)))
    ]
  ]
]
