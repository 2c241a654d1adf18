-- ===== src/Renderer/Browsers.antt =====
-- Which browser gets the frames.
use matrixserver.Common.{
  ℕ, zero, suc, ◌+◌, ◌≡◌, ◌≢◌, refl, ◌∙◌, List, [], ◌∷◌, ◌++◌, Option, some, none, Bool, true,
  false, length, not, ◌==◌, get_elem?, arith, get_elem?-set_ne, inl, inr, Bool-cases,
}
use matrixserver.Protocol.{Message}
use matrixserver.Graphics.Screen.{Screen}
use matrixserver.Connection.Session.{Session, on_read}
use matrixserver.Renderer.WebSocket.{
  WsRenderer, new_session, on_connection, put_session, SessionEvent, received, handle_session,
  on_session_event, render, send_message,
}
use matrixserver.Renderer.Newest.{Newest, get_elem?-append, get_elem?-bound}

-- What happens to the renderer: a connection, a handler of a session, a frame, a message.
pub data Event : Type 0 where
  connected : Bool → Event
  happened : ℕ → SessionEvent → Event
  rendered : Event
  sent : Message → Event

unfoldable pub step : (Message → Option (List ℕ)) → Event → WsRenderer → Option WsRenderer
step serialize (connected error) w = some (on_connection error w)
step serialize (happened i event) w = on_session_event i event w
step serialize rendered w = render serialize w
step serialize (sent m) w = send_message serialize m w

unfoldable pub run : (Message → Option (List ℕ)) → List Event → WsRenderer → Option WsRenderer
run serialize [] w = some w
run serialize (e ∷ es) w = elim (step serialize e w) [ none ↦ none | some v ↦ run serialize es v ]

get_elem?-append_left :
    (ss : List Session) (t s : Session) (i : ℕ)
    → get_elem? ss i ≡ some s
    → get_elem? (ss ++ (t ∷ [])) i ≡ some s
get_elem?-append_left [] t s i e = absurd (ground (arith, e))
get_elem?-append_left (u ∷ ss) t s zero e = e
get_elem?-append_left (u ∷ ss) t s (suc i) e = get_elem?-append_left ss t s i e

render_idle :
    (serialize : Message → Option (List ℕ)) (w : WsRenderer)
    → w.active_session ≡ none
    → render serialize w ≡ some w
unfolding render
render_idle serialize w e = elim (Bool-cases (not w.stream_pixels)) [
  | inl off ↦ rw (off, render) refl
  | inr on ↦ ground (arith, on, e)
]

put_session_closed :
    (i : ℕ) (s t : Session) (w : WsRenderer)
    → t.closed ≡ s.closed + 1
    → (put_session i s t w).active_session ≡ none
unfolding put_session
put_session_closed i s t w e =
    let other : (s.closed == t.closed) ≡ false = ground (arith, e) in rw other refl

-- A browser connects while the session of an earlier one lives on, and then a read of the earlier one
-- fails: the new session is neither closed nor changed, but no session is active any more, so frames
-- are drawn for nobody.
pub stale_close :
    (serialize : Message → Option (List ℕ)) (w : WsRenderer) (i : ℕ) (s : Session) (buffer : List ℕ)
    → get_elem? w.sessions i ≡ some s
    → (u : WsRenderer) × (on_session_event i (received true buffer) (on_connection false w)
        ≡ some u)
      × (get_elem? u.sessions (length w.sessions) ≡ some new_session)
      × (u.active_session ≡ none)
      × (render serialize u ≡ some u)
unfolding on_session_event on_connection handle_session on_read put_session
stale_close serialize w i s buffer g =
    let known = get_elem?-append_left w.sessions new_session s i g in
    let ended : Session = record s { closed = s.closed + 1; reading = false } in
    let idle = put_session_closed i s ended (on_connection false w) refl in
    let older : i ≢ length w.sessions = ground (arith, get_elem?-bound w.sessions i s g) in
    (
      put_session i s ended (on_connection false w),
      rw (known, on_session_event) refl,
      get_elem?-set_ne (w.sessions ++ (new_session ∷ [])) ended older
          ∙ get_elem?-append w.sessions new_session,
      idle,
      render_idle serialize _ idle,
    )
