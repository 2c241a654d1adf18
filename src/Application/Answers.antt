-- ===== src/Application/Answers.antt =====
-- application/MatrixApplication.cpp: what a message of the server does to the state of an application,
-- and its frame rate.
use matrixserver.Common.{
  ◌≡◌, refl, ◌∷◌, List, [], Option, some, none, Bool, true, false, if◌then◌else◌, arith, inl, inr,
  Bool-cases, subst,
}
use matrixserver.Common.Int.{ℤ, ◌≤ℤ◌}
use matrixserver.Protocol.{
  Message, MessageType, default_message_type, register_app, get_server_info, request_screen_access,
  set_screen_frame, app_alive, app_pause, app_resume, app_kill, imu_data, joystick_data,
  app_param_schema, set_app_param, get_app_params, app_param_values, audio_data_message, ImuData,
  AudioData, AppParamUpdate,
}
use matrixserver.Params.Store.{to_values}
use matrixserver.Application.Life.{
  Application, AppState, starting, running, paused, ended, killed, failure, is_running, is_paused,
  pause, resume, stop, set_fps, min_fps, max_fps,
}
use matrixserver.Application.Handler.{
  respond, answer, handle_request, on_register, on_server_info, on_imu, on_audio, screens_of,
  is_success, config_of, set_up,
}

-- A frame rate between 1 and 200 stays between them, whatever is asked for.
pub set_fps_bounds :
    (a : Application) (n : ℤ)
    → min_fps ≤ℤ a.fps
    → a.fps ≤ℤ max_fps
    → (min_fps ≤ℤ (set_fps a n).fps) × ((set_fps a n).fps ≤ℤ max_fps)
unfolding set_fps
set_fps_bounds a n p q = ground arith

abbrev pub is_ack : MessageType → Bool
is_ack request_screen_access = true
is_ack set_screen_frame = true
is_ack default_message_type = false
is_ack register_app = false
is_ack get_server_info = false
is_ack app_alive = false
is_ack app_pause = false
is_ack app_resume = false
is_ack app_kill = false
is_ack imu_data = false
is_ack joystick_data = false
is_ack app_param_schema = false
is_ack set_app_param = false
is_ack get_app_params = false
is_ack app_param_values = false
is_ack audio_data_message = false

-- What an operation leaves alone, beside what it is asked for.
abbrev Keeps : Application → Application → Type 0
Keeps a b = (b.frame_acked ≡ a.frame_acked) × (b.app_state ≡ a.app_state)

on_register-Keeps : (m : Message) (a : Application) → Keeps a (on_register m a).1
unfolding on_register
on_register-Keeps m a = elim (Bool-cases (is_success m.status)) [
  | inl e ↦ (rw e refl, rw e refl)
  | inr e ↦ (rw e refl, rw e refl)
]

on_imu-Keeps : (m : Message) (a : Application) → Keeps a (on_imu m a)
unfolding on_imu
on_imu-Keeps m a = go m.imu_data refl
  where
    go : (d : Option ImuData) → m.imu_data ≡ d → Keeps a (on_imu m a)
    go none e = (rw e refl, rw e refl)
    go (some d) e = (rw e refl, rw e refl)

on_audio-Keeps : (m : Message) (a : Application) → Keeps a (on_audio m a)
unfolding on_audio
on_audio-Keeps m a = go m.audio_data refl
  where
    go : (d : Option AudioData) → m.audio_data ≡ d → Keeps a (on_audio m a)
    go none e = (rw e refl, rw e refl)
    go (some d) e = (rw e refl, rw e refl)

pause_keeps : (a : Application) → (pause a).1.frame_acked ≡ a.frame_acked
unfolding pause
pause_keeps a = elim (Bool-cases (is_running a.app_state)) [ inl e ↦ rw e refl | inr e ↦ rw e refl ]

resume_keeps : (a : Application) → (resume a).1.frame_acked ≡ a.frame_acked
unfolding resume
resume_keeps a = elim (Bool-cases (is_paused a.app_state)) [ inl e ↦ rw e refl | inr e ↦ rw e refl ]

-- The state that each message leads to.
abbrev pub next_state : MessageType → AppState → AppState
next_state app_pause running = paused
next_state app_resume paused = running
next_state app_kill s = killed
next_state get_server_info s = running
next_state t s = s

abbrev Matches : MessageType → Application → Application → Type 0
Matches t a b =
    (b.frame_acked ≡ (if is_ack t then true else a.frame_acked))
    × (b.app_state ≡ next_state t a.app_state)

MatchOf : MessageType → Application → Option (List Message × Application) → Type 0
MatchOf t a none = Unit
MatchOf t a (some r) = Matches t a r.1

pause_state : (a : Application) → (pause a).1.app_state ≡ next_state app_pause a.app_state
unfolding pause
pause_state a = go a.app_state refl
  where
    go : (s : AppState) → a.app_state ≡ s → (pause a).1.app_state ≡ next_state app_pause s
    go running e = rw e refl
    go starting e = rw e refl
    go paused e = rw e refl
    go ended e = rw e refl
    go killed e = rw e refl
    go failure e = rw e refl

resume_state : (a : Application) → (resume a).1.app_state ≡ next_state app_resume a.app_state
unfolding resume
resume_state a = go a.app_state refl
  where
    go : (s : AppState) → a.app_state ≡ s → (resume a).1.app_state ≡ next_state app_resume s
    go running e = rw e refl
    go starting e = rw e refl
    go paused e = rw e refl
    go ended e = rw e refl
    go killed e = rw e refl
    go failure e = rw e refl

-- A step that may fail and then leads to a state that matches.
option-Matches :
    {X : Type 0} (t : MessageType) (a : Application) (o : Option X)
    (k : X → List Message × Application)
    → ((x : X) → Matches t a (k x).1)
    → MatchOf t a (elim o [ none ↦ none | some x ↦ some (k x) ])
unfolding MatchOf
option-Matches t a none k h = tt
option-Matches t a (some x) k h = h x

after_setup :
    (t : MessageType) (a : Application) {X : Type 0} (o : Option X) (k : X → Application)
    → ((x : X) → Matches t a (k x))
    → MatchOf t a
        (elim (elim o as (λ (u : Option X). Option Application) [
          | none ↦ none
          | some x ↦ some (k x)
        ])
          as (λ (u : Option Application). Option (List Message × Application)) [
            | none ↦ none
            | some b ↦ some ([], b)
          ])
unfolding MatchOf
after_setup t a none k h = tt
after_setup t a (some x) k h = h x

server_info_matches :
    (m : Message) (a : Application) → MatchOf get_server_info a (respond get_server_info m a)
unfolding respond on_server_info
server_info_matches m a =
    after_setup get_server_info a (screens_of (config_of m).screen_info) (set_up (config_of m) a)
      (λ x. (refl, refl))

param_matches :
    (m : Message) (a : Application) (u : Option AppParamUpdate)
    → m.app_param_update ≡ u
    → MatchOf set_app_param a (respond set_app_param m a)
unfolding MatchOf respond
param_matches m a none e = rw e (refl, refl)
param_matches m a (some u) e = rw e (refl, refl)

stop_matches : (a b : Application) → stop a ≡ some b → Matches app_kill a b
unfolding stop
stop_matches a b e = (ground (arith, e), ground (arith, e))

killed_matches :
    (a : Application) (o : Option Application) (sent : List Message)
    → ((b : Application) → o ≡ some b → Matches app_kill a b)
    → MatchOf app_kill a (elim o [ none ↦ none | some b ↦ some (sent, b) ])
unfolding MatchOf
killed_matches a none sent h = tt
killed_matches a (some b) sent h = h b refl

respond_matches : (t : MessageType) (m : Message) (a : Application) → MatchOf t a (respond t m a)
unfolding MatchOf respond
respond_matches register_app m a = on_register-Keeps m a
respond_matches get_server_info m a = server_info_matches m a
respond_matches app_pause m a = (pause_keeps a, pause_state a)
respond_matches app_resume m a = (resume_keeps a, resume_state a)
respond_matches app_alive m a = (refl, refl)
respond_matches app_kill m a =
    killed_matches a (stop a) (answer a app_kill true ∷ []) (stop_matches a)
respond_matches request_screen_access m a = (refl, refl)
respond_matches set_screen_frame m a = (refl, refl)
respond_matches joystick_data m a = (refl, refl)
respond_matches imu_data m a = on_imu-Keeps m a
respond_matches audio_data_message m a = on_audio-Keeps m a
respond_matches set_app_param m a = param_matches m a m.app_param_update refl
respond_matches get_app_params m a =
    option-Matches get_app_params a (to_values a.app_name a.params) _ (λ x. (refl, refl))
respond_matches default_message_type m a = (refl, refl)
respond_matches app_param_schema m a = (refl, refl)
respond_matches app_param_values m a = (refl, refl)

-- When a message has been handled the state of the application is the one that `next_state` says, and
-- the acknowledgement flag is set by an acknowledgement and unchanged by every other message.
pub handle_request_lem :
    (m : Message) (a b : Application) (sent : List Message)
    → handle_request m a ≡ some (sent, b)
    → (b.frame_acked ≡ (if is_ack m.message_type then true else a.frame_acked))
      × (b.app_state ≡ next_state m.message_type a.app_state)
unfolding handle_request MatchOf
handle_request_lem m a b sent e =
    subst (MatchOf m.message_type a) e (respond_matches m.message_type m a)
