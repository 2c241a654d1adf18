-- ===== src/Server/Runs.antt =====
-- Exactly the top application runs: the discipline over any history of requests and ticks.
use matrixserver.Common.{
  ℕ, ◌≡◌, ◌≢◌, refl, List, [], ◌∷◌, some, false, if◌then◌else◌, arith, inl, inr, Bool-cases,
}
use matrixserver.Common.Int.{ℤ, pos, negsuc, ◌==ℤ◌, ==ℤ_iff}
use matrixserver.Protocol.{
  Message, MessageType, default_message_type, register_app, get_server_info, request_screen_access,
  set_screen_frame, app_alive, app_pause, app_resume, app_kill, imu_data, joystick_data,
  app_param_schema, set_app_param, get_app_params, app_param_values, audio_data_message,
}
use matrixserver.Server.Apps.{
  Server, App, Effect, AppState, back, remove_if, resume_top_app, new_app,
}
use matrixserver.Server.Requests.{
  pause_top_app, dispatch, handle_request, handle_register, handle_frame, handle_kill, is_top_app,
  server_info,
}
use matrixserver.Server.Stack.{to_pause, Told, after_effects, conns, ids, Differ}
use matrixserver.Server.Discipline.{
  Good, remove_top-Good, keep_top-Good, pause_below, same_keys_state, same_keys_schema, keys-Good,
  push-Good,
}
use matrixserver.Server.Effects.{after-append, after-forward, after-show_frame}

-- What a request may rely on: a registration comes on a connection that no application has and that
-- was not told to pause, and draws an unused id other than -1; a frame on the top application's
-- connection names the top application.
pub record Admissible (told : Told) (rand : ℤ) (apps : List App) (c : ℕ) (m : Message)
    : Type 0 where
  pub fresh_connection : m.message_type ≡ register_app → Differ c (conns apps)
  pub calm : m.message_type ≡ register_app → told c ≢ some to_pause
  pub fresh_id : m.message_type ≡ register_app → Differ rand (ids apps)
  pub real_id : m.message_type ≡ register_app → rand ≢ negsuc 0
  pub own_frames :
      m.message_type ≡ set_screen_frame
      → (t : App) → back apps ≡ some t
      → t.connection ≡ c
      → m.app_id ≡ t.app_id

-- Good after a handler's result.
abbrev pub GoodAfter : Told → Server × List Effect → Type 0
GoodAfter told (s, es) = Good (after_effects told es) s.apps

register-Good :
    (told : Told) (rand : ℤ) (s : Server) (c : ℕ) (m : Message)
    → Good told s.apps
    → Differ c (conns s.apps)
    → told c ≢ some to_pause
    → Differ rand (ids s.apps)
    → rand ≢ negsuc 0
    → GoodAfter told (handle_register rand s c m)
unfolding handle_register
register-Good told rand s c m g new calm unused real = elim (Bool-cases (m.app_id ==ℤ pos 0)) [
  | inl e ↦ rw e (
      rw (after-append told (pause_top_app s.apps)) (
        unfold after_effects new_app in
        (push-Good told s.apps (new_app rand c) g new calm unused real)))
  | inr e ↦ rw e (unfold after_effects in g)
]

frame-Good :
    (told : Told) (s : Server) (c : ℕ) (m : Message)
    → Good told s.apps
    → ((t : App) → back s.apps ≡ some t → t.connection ≡ c → m.app_id ≡ t.app_id)
    → GoodAfter told (handle_frame s c m)
unfolding handle_frame
frame-Good told s c m g own = elim (Bool-cases (is_top_app s.apps m.app_id)) [
  | inl e ↦ rw (e, after-show_frame told s.config c m s.renderers) g
  | inr e ↦ rw e (
      unfold after_effects in
      (record {
        own_connection = g.own_connection;
        own_id = g.own_id;
        real_id = g.real_id;
        disciplined = pause_below told s.apps c (not_top e) g.disciplined;
      }))
]
  where
    not_top :
        is_top_app s.apps m.app_id ≡ false → (t : App) → back s.apps ≡ some t → t.connection ≢ c
    not_top e t b q = unfold is_top_app in (ground (arith, own t b q, ==ℤ_iff m.app_id t.app_id))

pub back_nonempty : (a : App) (l : List App) → (t : App) × (back (a ∷ l) ≡ some t)
unfolding back
back_nonempty a [] = (a, refl)
back_nonempty a (b ∷ l) = back_nonempty b l

==ℤ_comm : (a b : ℤ) → (a ==ℤ b) ≡ (b ==ℤ a)
==ℤ_comm (pos a) (pos b) = ground arith
==ℤ_comm (pos a) (negsuc b) = refl
==ℤ_comm (negsuc a) (pos b) = refl
==ℤ_comm (negsuc a) (negsuc b) = ground arith

pub is_top_app_lem :
    (apps : List App) (id : ℤ) (t : App)
    → back apps ≡ some t
    → is_top_app apps id ≡ (t.app_id ==ℤ id)
unfolding is_top_app
is_top_app_lem apps id t e = rw (e, is_top_app) (==ℤ_comm id t.app_id)

kill_apps :
    (told : Told) (apps : List App) (id : ℤ)
    → Good told apps
    → Good
        (after_effects told (
          if is_top_app apps id
          then resume_top_app (remove_if (λ a. a.app_id ==ℤ id) apps)
          else []))
        (remove_if (λ a. a.app_id ==ℤ id) apps)
kill_apps told [] id g =
    unfold is_top_app back remove_if after_effects in
    (record { own_connection = tt; own_id = tt; real_id = tt; disciplined = tt })
kill_apps told (a ∷ l) id g =
    let (t, e) = back_nonempty a l in
    elim (Bool-cases (t.app_id ==ℤ id)) [
      | inl h ↦
          rw (is_top_app_lem (a ∷ l) id t e, h)
            (remove_top-Good told (λ x. x.app_id ==ℤ id) (a ∷ l) t g e h)
      | inr h ↦
          rw (is_top_app_lem (a ∷ l) id t e, h)
            (unfold after_effects in (keep_top-Good told (λ x. x.app_id ==ℤ id) (a ∷ l) t g e h))
    ]

kill-Good :
    (told : Told) (s : Server) (m : Message) → Good told s.apps → GoodAfter told (handle_kill s m)
unfolding handle_kill
kill-Good told s m g = kill_apps told s.apps m.app_id g

dispatch-Good :
    (t : MessageType) (told : Told) (rand : ℤ) (s : Server) (c : ℕ) (m : Message)
    → m.message_type ≡ t
    → Good told s.apps
    → Admissible told rand s.apps c m
    → GoodAfter told (dispatch t rand s c m)
unfolding dispatch after_effects server_info
dispatch-Good register_app told rand s c m e g ok =
    register-Good told rand s c m g (ok.fresh_connection e) (ok.calm e) (ok.fresh_id e)
      (ok.real_id e)
dispatch-Good get_server_info told rand s c m e g ok = g
dispatch-Good set_screen_frame told rand s c m e g ok = frame-Good told s c m g (ok.own_frames e)
dispatch-Good app_pause told rand s c m e g ok =
    keys-Good told s.apps _ (same_keys_state m.app_id AppState.paused s.apps) g
dispatch-Good app_resume told rand s c m e g ok =
    keys-Good told s.apps _ (same_keys_state m.app_id AppState.running s.apps) g
dispatch-Good app_kill told rand s c m e g ok = kill-Good told s m g
dispatch-Good app_param_schema told rand s c m e g ok =
    rw (after-forward told s.renderers m)
      (keys-Good told s.apps _ (same_keys_schema m.app_id _ s.apps) g)
dispatch-Good app_param_values told rand s c m e g ok = rw (after-forward told s.renderers m) g
dispatch-Good default_message_type told rand s c m e g ok = g
dispatch-Good request_screen_access told rand s c m e g ok = g
dispatch-Good app_alive told rand s c m e g ok = g
dispatch-Good imu_data told rand s c m e g ok = g
dispatch-Good joystick_data told rand s c m e g ok = g
dispatch-Good set_app_param told rand s c m e g ok = g
dispatch-Good get_app_params told rand s c m e g ok = g
dispatch-Good audio_data_message told rand s c m e g ok = g

-- A request whose registration or frame is admissible leaves the stack disciplined, counting what its
-- connections were told by the effects of the handler.
pub handle_request-Good :
    (told : Told) (rand : ℤ) (s : Server) (c : ℕ) (m : Message)
    → Good told s.apps
    → Admissible told rand s.apps c m
    → GoodAfter told (handle_request rand s c m)
unfolding handle_request
handle_request-Good told rand s c m g ok = dispatch-Good m.message_type told rand s c m refl g ok
