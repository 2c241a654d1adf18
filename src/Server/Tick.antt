-- ===== src/Server/Tick.antt =====
-- `Server::tick` and `Server::stopDefaultApp`.
use matrixserver.Common.{
  ℕ, zero, suc, List, [], ◌∷◌, ◌++◌, some, none, Bool, true, false, if◌then◌else◌, not, ◌&&◌, ◌+◌,
}
use matrixserver.Common.Int.{ℤ, pos, negsuc, ◌==ℤ◌, ltb_ℤ}
use matrixserver.Protocol.{message_of, app_kill}
use matrixserver.Server.Apps.{
  Server, App, Effect, send_msg, clear_button_presses, start_default_app, send_signal, back,
  remove_if, resume_top_app,
}

-- What a tick learns from outside: the start button, which connections are dead, whether signal 0
-- reaches the default application, whether `waitpid` reports it gone, and what `fork` returns.
pub record World : Type 0 where
  pub start_pressed : Bool
  pub is_dead : ℕ → Bool
  pub signal_reaches : Bool
  pub has_exited : Bool
  pub fork_result : ℤ

unfoldable pub kill_current : World → Server → List Effect
unfolding back
kill_current w s =
    if w.start_pressed
    then elim (back s.apps) [
      | none ↦ []
      | some a ↦ send_msg a.connection (message_of app_kill) ∷ []
    ]
    else []

abbrev pub is_empty {ℓ} : {A : Type ℓ} → List A → Bool
is_empty [] = true
is_empty (x ∷ xs) = false

abbrev is_pid : ℤ → Bool
is_pid p = ltb_ℤ (pos 0) p

-- No application is left: start the default one, unless the last one still lives.
unfoldable pub start_default : World → Server → Server × List Effect
start_default w s =
    let alive = is_pid s.default_app_pid && w.signal_reaches in
    let old =
      if is_pid s.default_app_pid && not w.signal_reaches then negsuc 0 else s.default_app_pid in
    let pid = if is_pid w.fork_result then w.fork_result else old in
    if alive
    then (record s { default_app_started = true }, [])
    else (record s { default_app_started = true; default_app_pid = pid }, start_default_app ∷ [])

-- An application is there: the default one may be started again later.
unfoldable pub note_running : World → Server → Server
note_running w s = record s {
  default_app_started = false;
  default_app_pid =
      if is_pid s.default_app_pid && w.has_exited then negsuc 0 else s.default_app_pid;
}

unfoldable pub manage_default : World → Server → Server × List Effect
unfolding start_default note_running
manage_default w s =
    if is_empty s.apps
    then (if not s.default_app_started then start_default w s else (s, []))
    else (note_running w s, [])

unfoldable pub top_app_id : List App → ℤ
unfolding back
top_app_id apps = elim (back apps) [ none ↦ negsuc 0 | some a ↦ a.app_id ]

unfoldable pub remove_dead_apps : World → Server → Server × List Effect
unfolding top_app_id
remove_dead_apps w s =
    let apps' = remove_if (λ a. w.is_dead a.connection) s.apps in
    let before = top_app_id s.apps in
    let after = top_app_id apps' in
    (
      record s { apps = apps' },
      (if not (before ==ℤ after) && not (after ==ℤ negsuc 0) then resume_top_app apps' else []),
    )

unfoldable pub remove_dead : (ℕ → Bool) → List ℕ → List ℕ
remove_dead dead [] = []
remove_dead dead (c ∷ cs) = let kept = remove_dead dead cs in if dead c then kept else c ∷ kept

unfoldable pub tick : World → Server → Server × List Effect
tick w s =
    let (s1, started) = manage_default w s in
    let (s2, resumed) = remove_dead_apps w s1 in
    (
      record s2 { connections = remove_dead w.is_dead s2.connections },
      kill_current w s ++ (clear_button_presses ∷ (started ++ resumed)),
    )

abbrev pub sigterm : ℕ
sigterm = 15

abbrev pub sigkill : ℕ
sigkill = 9

-- The rounds of 100 ms; `gone i` is what `waitpid` reports in round `i`. True: it ended by itself.
unfoldable pub wait_exit : (ℕ → Bool) → ℕ → ℕ → Bool
wait_exit gone zero i = false
wait_exit gone (suc n) i = let more = wait_exit gone n (i + 1) in if gone i then true else more

unfoldable pub stop_default_app : (ℕ → Bool) → Server → Server × List Effect
stop_default_app gone s =
    let pid = s.default_app_pid in
    if is_pid pid
    then (
      record s { default_app_pid = negsuc 0 },
      send_signal pid sigterm ∷ (if wait_exit gone 30 0 then [] else send_signal pid sigkill ∷ []),
    )
    else (s, [])
