-- ===== src/Standalone/Setup.antt =====
-- application/MatrixApplicationStandalone.cpp: its configuration, its screens and its state.
use matrixserver.Common.{
  ℕ, suc, Bool, true, false, List, [], ◌∷◌, Option, none, some, ◌&&◌, if◌then◌else◌,
}
use matrixserver.Common.Int.{ℤ, pos, leb_ℤ, ◌==ℤ◌}
use matrixserver.Protocol
use matrixserver.Protocol.{ScreenInfo, ScreenOrientation, ServerConfig}
use matrixserver.Graphics.Screen
use matrixserver.Graphics.Screen.{
  Screen, Rotation, new_screen, set_rotation, set_offset_x, set_offset_y,
}
use matrixserver.Application.Life.{
  AppState, starting, running, paused, killed, is_running, is_paused, default_fps, min_fps, max_fps,
}
use matrixserver.Setup.Defaults.{local_address, default_server_port, default_server_name}

-- The orientation with the number `i + 1`, for the six rounds of the loop.
abbrev pub orientations : List ScreenOrientation
orientations =
    Protocol.front ∷ Protocol.right ∷ Protocol.back ∷ Protocol.left ∷ Protocol.top ∷ Protocol.bottom
    ∷ []

unfoldable pub screen_infos : ℕ → List ScreenOrientation → List ScreenInfo
screen_infos i [] = []
screen_infos i (o ∷ os) =
    record {
      screen_id = pos i;
      width = pos 64;
      height = pos 64;
      available = true;
      screen_orientation = o;
      screen_rotation = Protocol.rot0;
      offset_x = pos 0;
      offset_y = pos 0;
    }
    ∷ screen_infos (suc i) os

unfoldable pub create_default_cube_config : ServerConfig
create_default_cube_config = record {
  screen_info = screen_infos 0 orientations;
  assembly_type = Protocol.cube;
  global_screen_brightness = pos 100;
  server_connection = some (record {
    server_address = local_address;
    server_port = default_server_port;
    connection_type = Protocol.tcp;
  });
  server_name = default_server_name;
  simulator_address = [];
  simulator_port = [];
  tick_interval_ms = pos 0;
  pixel_streaming_enabled = false;
}

abbrev pub placed_at : ℕ → ℕ → Rotation → Screen → Screen
placed_at x y r s = set_rotation (set_offset_y (set_offset_x s (pos x)) (pos y)) r

-- The `switch` over the orientation; another one leaves offsets and rotation unset.
unfoldable pub place_screen : ScreenOrientation → Screen → Screen
place_screen Protocol.front s = placed_at 1 1 Screen.rot180 s
place_screen Protocol.right s = placed_at 0 1 Screen.rot180 s
place_screen Protocol.back s = placed_at 1 0 Screen.rot90 s
place_screen Protocol.left s = placed_at 2 1 Screen.rot180 s
place_screen Protocol.top s = placed_at 0 0 Screen.rot270 s
place_screen Protocol.bottom s = placed_at 2 0 Screen.rot270 s
place_screen Protocol.default_screen_orientation s = s
place_screen Protocol.any_screen s = s

-- The screens of the configuration, made once for the renderer and once for the application. Their
-- size is that of the configuration above.
unfoldable pub make_screens : List ScreenInfo → List Screen
make_screens [] = []
make_screens (i ∷ infos) =
    place_screen i.screen_orientation (new_screen 64 64 i.screen_id) ∷ make_screens infos

-- The constructor leaves `fps` uninitialised: `none`.
pub record Standalone : Type 0 where
  pub fps : Option ℤ
  pub app_state : AppState
  pub screens : List Screen
  pub render_screens : List Screen
  pub has_main_thread : Bool

unfoldable pub new_standalone : Standalone
new_standalone = record {
  fps = none;
  app_state = starting;
  screens = make_screens (create_default_cube_config).screen_info;
  render_screens = make_screens (create_default_cube_config).screen_info;
  has_main_thread = false;
}

unfoldable pub set_fps : ℤ → Standalone → Standalone
set_fps fps a =
    if leb_ℤ fps max_fps && leb_ℤ min_fps fps
    then record a { fps = some fps }
    else if fps ==ℤ pos 0
    then record a { fps = some default_fps }
    else a

unfoldable pub start : Standalone → Standalone
start a = record a { has_main_thread = true; app_state = running }

unfoldable pub pause : Standalone → Bool × Standalone
pause a = if is_running a.app_state then (true, record a { app_state = paused }) else (false, a)

unfoldable pub resume : Standalone → Bool × Standalone
resume a = if is_paused a.app_state then (true, record a { app_state = running }) else (false, a)

unfoldable pub stop : Standalone → Standalone
stop a = record a { has_main_thread = false; app_state = killed }
