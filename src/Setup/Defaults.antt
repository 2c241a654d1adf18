-- ===== src/Setup/Defaults.antt =====
-- server/ServerSetup.cpp: the default configuration for each kind of hardware.
use matrixserver.Common.{ℕ, suc, Bool, true, false, List, [], ◌∷◌, some}
use matrixserver.Common.Int.{ℤ, pos}
use matrixserver.Protocol
use matrixserver.Protocol.{
  Text, ScreenInfo, ScreenOrientation, ScreenRotation, front, right, back, left, top, bottom,
  default_screen_orientation, any_screen, rot0, rot90, rot180, rot270, ServerConfig,
}

pub data HardwareType : Type 0 where
  simulator fpga_ftdi fpga_rpispi rgb_matrix : HardwareType

-- `offsetX`, `offsetY` and the rotation of a panel.
pub record Layout : Type 0 where
  pub x : ℤ
  pub y : ℤ
  pub rotation : ScreenRotation

abbrev pub layout : ℕ → ℕ → ScreenRotation → Layout
layout x y r = record { x = pos x; y = pos y; rotation = r }

unfoldable pub layout_of : HardwareType → ScreenOrientation → Layout
layout_of fpga_ftdi o = elim o [
  | front ↦ layout 4 0 rot180
  | right ↦ layout 3 0 rot180
  | back ↦ layout 1 0 rot90
  | left ↦ layout 5 0 rot180
  | top ↦ layout 0 0 rot270
  | bottom ↦ layout 2 0 rot270
  | default_screen_orientation ↦ layout 0 0 rot0
  | any_screen ↦ layout 0 0 rot0
]
layout_of fpga_rpispi o = elim o [
  | front ↦ layout 1 1 rot0
  | right ↦ layout 2 1 rot0
  | back ↦ layout 1 0 rot90
  | left ↦ layout 0 1 rot0
  | top ↦ layout 0 0 rot270
  | bottom ↦ layout 2 0 rot270
  | default_screen_orientation ↦ layout 0 0 rot0
  | any_screen ↦ layout 0 0 rot0
]
layout_of rgb_matrix o = elim o [
  | front ↦ layout 0 0 rot270
  | right ↦ layout 1 0 rot180
  | back ↦ layout 2 0 rot270
  | left ↦ layout 3 0 rot180
  | top ↦ layout 4 0 rot90
  | bottom ↦ layout 5 0 rot0
  | default_screen_orientation ↦ layout 0 0 rot0
  | any_screen ↦ layout 0 0 rot0
]
layout_of simulator o = layout 0 0 rot0

unfoldable pub set_screen_defaults : ScreenInfo → ScreenOrientation → HardwareType → ScreenInfo
set_screen_defaults si orient hw = record si {
  screen_orientation = orient;
  offset_x = (layout_of hw orient).x;
  offset_y = (layout_of hw orient).y;
  screen_rotation = (layout_of hw orient).rotation;
}

-- A message as `add_screeninfo` adds it, and as the loop fills it.
unfoldable pub default_screen : HardwareType → ℕ → ScreenOrientation → ScreenInfo
default_screen hw i orient =
    set_screen_defaults
      (record {
        screen_id = pos i;
        width = pos 64;
        height = pos 64;
        available = true;
        screen_orientation = default_screen_orientation;
        screen_rotation = rot0;
        offset_x = pos 0;
        offset_y = pos 0;
      })
      orient hw

-- The loop over `orientations`, from number `i`.
unfoldable pub default_screens : HardwareType → ℕ → List ScreenOrientation → List ScreenInfo
default_screens hw i [] = []
default_screens hw i (o ∷ os) = default_screen hw i o ∷ default_screens hw (suc i) os

abbrev pub orientations : List ScreenOrientation
orientations = front ∷ right ∷ back ∷ left ∷ top ∷ bottom ∷ []

-- `127.0.0.1`
abbrev pub local_address : Text
local_address = 49 ∷ 50 ∷ 55 ∷ 46 ∷ 48 ∷ 46 ∷ 48 ∷ 46 ∷ 49 ∷ []

-- `2017`
abbrev pub default_server_port : Text
default_server_port = 50 ∷ 48 ∷ 49 ∷ 55 ∷ []

-- `1337`
abbrev pub default_simulator_port : Text
default_simulator_port = 49 ∷ 51 ∷ 51 ∷ 55 ∷ []

-- `matrixserver`
abbrev pub default_server_name : Text
default_server_name = 109 ∷ 97 ∷ 116 ∷ 114 ∷ 105 ∷ 120 ∷ 115 ∷ 101 ∷ 114 ∷ 118 ∷ 101 ∷ 114 ∷ []

unfoldable pub default_tick_ms : HardwareType → ℤ
default_tick_ms fpga_rpispi = pos 100
default_tick_ms simulator = pos 1000
default_tick_ms fpga_ftdi = pos 1000
default_tick_ms rgb_matrix = pos 1000

unfoldable pub is_simulator : HardwareType → Bool
is_simulator simulator = true
is_simulator fpga_ftdi = false
is_simulator fpga_rpispi = false
is_simulator rgb_matrix = false

unfoldable pub create_default_cube_config : HardwareType → ServerConfig
create_default_cube_config hw = record {
  screen_info = default_screens hw 0 orientations;
  assembly_type = Protocol.cube;
  global_screen_brightness = pos 100;
  server_connection = some (record {
    server_address = local_address;
    server_port = default_server_port;
    connection_type = Protocol.tcp;
  });
  server_name = default_server_name;
  simulator_address = local_address;
  simulator_port = default_simulator_port;
  tick_interval_ms = default_tick_ms hw;
  pixel_streaming_enabled = is_simulator hw;
}
