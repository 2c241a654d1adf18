-- ===== src/Server/Tests.antt =====
-- Runs of the server at concrete inputs.
use matrixserver.Common.{
  ℕ, ◌≡◌, ◌≢◌, refl, [], ◌∷◌, some, none, true, false, arith, ◌<◌, ◌==◌, if◌then◌else◌,
}
use matrixserver.Common.Int.{ℤ, pos, negsuc}
use matrixserver.Protocol.{
  Message, message_of, empty_config, empty_schema, register_app, set_screen_frame, app_kill,
  ServerConfig, front, rot0,
}
use matrixserver.Server.Apps.{App, Server, send_signal, back, get_app_by_id, new_app}
use matrixserver.Server.Requests.{
  handle_request, handle_register, handle_frame, is_top_app, dispatch, show_frame, set_screens,
  is_valid_screen,
}
use matrixserver.Server.Tick.{World, tick, stop_default_app, sigterm, sigkill}
use matrixserver.Server.Stack.{Told, to_pause}
use matrixserver.Server.Discipline.{Good}
use matrixserver.Server.Runs.{Admissible, GoodAfter, handle_request-Good}
use matrixserver.Server.History.{tick-Good}
use matrixserver.Server.Histories.{Run, after}
use matrixserver.Server.Drawing.{any_draws, HasOnTop, only_top_draws}
use matrixserver.Server.Lifecycle.{Survive, handle_register_lem, tick_live, stop_default_app_lem}

abbrev app_on : ℤ → ℕ → App
app_on i c = record {
  app_id = i;
  app_state = none;
  connection = c;
  param_schema = empty_schema;
  has_schema = false;
}

abbrev one_screen : ServerConfig
one_screen = record empty_config {
  screen_info =
      record {
        screen_id = pos 0;
        width = pos 64;
        height = pos 64;
        available = true;
        screen_orientation = front;
        screen_rotation = rot0;
        offset_x = pos 0;
        offset_y = pos 0;
      }
      ∷ [];
}

-- Application 5 below application 7.
abbrev two_apps : Server
two_apps = record {
  apps = app_on (pos 5) 1 ∷ app_on (pos 7) 2 ∷ [];
  renderers = 0 ∷ [];
  connections = 1 ∷ 2 ∷ [];
  config = one_screen;
  default_app_started = false;
  default_app_pid = pos 12;
}

abbrev first_paused : Told
first_paused c = if c == 1 then some to_pause else none

two_apps-Good : Good first_paused two_apps.apps
two_apps-Good = record {
  own_connection = ground arith;
  own_id = ground arith;
  real_id = ground arith;
  disciplined = ground arith;
}

-- A third application registers on connection 3 and draws the number 9.
abbrev registration : Message
registration = message_of register_app

registration-Admissible : Admissible first_paused (pos 9) two_apps.apps 3 registration
registration-Admissible = record {
  fresh_connection = λ e. ground arith;
  calm = λ e. ground arith;
  fresh_id = λ e. ground arith;
  real_id = λ e. ground arith;
  own_frames = λ e t b c. ground arith;
}

abbrev quiet : World
quiet = record {
  start_pressed = false;
  is_dead = λ c. c == 2;
  signal_reaches = true;
  has_exited = false;
  fork_result = pos 40;
}

abbrev start_run : Run
start_run = record { server = two_apps; told = first_paused }

handle_request-Good_example :
    GoodAfter first_paused (handle_request (pos 9) two_apps 3 registration)
handle_request-Good_example =
    handle_request-Good first_paused (pos 9) two_apps 3 registration two_apps-Good
      registration-Admissible

-- The connection of the top application is dead.
tick-Good_example : GoodAfter first_paused (tick quiet two_apps)
tick-Good_example = tick-Good first_paused quiet two_apps two_apps-Good

abbrev registered : Run
registered = after start_run (handle_request (pos 9) two_apps 3 registration)

abbrev ticked_run : Run
ticked_run = after registered (tick quiet registered.server)

abbrev frame_of_7 : Message
frame_of_7 = record (message_of set_screen_frame) {
  app_id = pos 7;
  screen_data = record { screen_id = pos 0; frame_data = [] } ∷ [];
}

draws_frame : any_draws (handle_request (pos 9) two_apps 2 frame_of_7).1 ≡ true
unfolding any_draws handle_request dispatch handle_frame show_frame is_top_app back set_screens
    is_valid_screen
draws_frame = refl

only_top_draws_example :
    (frame_of_7.message_type ≡ set_screen_frame) × HasOnTop two_apps.apps (pos 7)
only_top_draws_example = only_top_draws (pos 9) two_apps 2 frame_of_7 draws_frame

handle_register_lem_example :
    let apps' = (handle_register (pos 9) two_apps 3 registration).0.apps in
    (back apps' ≡ some (new_app (pos 9) 3))
    × (get_app_by_id (pos 9) apps' ≡ some (new_app (pos 9) 3))
    × ((j : ℤ) → j ≢ pos 9 → get_app_by_id j apps' ≡ get_app_by_id j two_apps.apps)
handle_register_lem_example =
    handle_register_lem (pos 9) two_apps 3 registration refl (registration-Admissible.fresh_id refl)

abbrev kill_7 : Message
kill_7 = record (message_of app_kill) { app_id = pos 7 }

tick_live_example :
    Survive (λ (a : App). a.connection) quiet.is_dead two_apps.apps (tick quiet two_apps).0.apps
    × Survive (λ (c : ℕ). c) quiet.is_dead two_apps.connections (tick quiet two_apps).0.connections
tick_live_example = tick_live quiet two_apps

-- The process is gone at the fourth poll.
stop_default_app_lem_example :
    ((stop_default_app (λ n. n == 3) two_apps).0.default_app_pid ≡ negsuc 0)
    × ((k : ℕ)
        → k < 30
        → (k == 3) ≡ true
        → (stop_default_app (λ n. n == 3) two_apps).1 ≡ send_signal (pos 12) sigterm ∷ [])
    × (((k : ℕ) → k < 30 → (k == 3) ≡ false)
        → (stop_default_app (λ n. n == 3) two_apps).1
          ≡ send_signal (pos 12) sigterm ∷ (send_signal (pos 12) sigkill ∷ []))
stop_default_app_lem_example = stop_default_app_lem (λ n. n == 3) two_apps 11 refl
