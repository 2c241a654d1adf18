-- ===== src/Setup/Start.antt =====
-- server/RendererFactory.cpp and server/main.cpp: the choice of the renderer and the main loop.
use matrixserver.Common.{
  ℕ, Bool, true, false, List, [], ◌∷◌, ◌++◌, Option, some, none, ◌&&◌, if◌then◌else◌,
}
use matrixserver.Common.Int.{ℤ, pos, leb_ℤ}
use matrixserver.Protocol.{Text, text_eq, ServerConfig, empty_config}
use matrixserver.Graphics.Screen.{Screen}
use matrixserver.Setup.Defaults.{
  HardwareType, simulator, fpga_ftdi, fpga_rpispi, rgb_matrix, default_simulator_port,
}
use matrixserver.Setup.Screens.{create_screens_from_config}
use matrixserver.Setup.Files.{
  CommandLine, Surroundings, exits, configured, is_empty_text, connection_of, handle_server_config,
}

-- The renderers that were compiled in.
pub record Compiled : Type 0 where
  pub have_fpga_ftdi : Bool
  pub have_fpga_rpispi : Bool
  pub have_rgb_matrix : Bool

-- `simulator`
abbrev pub simulator_name : Text
simulator_name = 115 ∷ 105 ∷ 109 ∷ 117 ∷ 108 ∷ 97 ∷ 116 ∷ 111 ∷ 114 ∷ []

-- `fpga-ftdi`
abbrev pub fpga_ftdi_name : Text
fpga_ftdi_name = 102 ∷ 112 ∷ 103 ∷ 97 ∷ 45 ∷ 102 ∷ 116 ∷ 100 ∷ 105 ∷ []

-- `fpga-rpispi`
abbrev pub fpga_rpispi_name : Text
fpga_rpispi_name = 102 ∷ 112 ∷ 103 ∷ 97 ∷ 45 ∷ 114 ∷ 112 ∷ 105 ∷ 115 ∷ 112 ∷ 105 ∷ []

-- `rgb-matrix`
abbrev pub rgb_matrix_name : Text
rgb_matrix_name = 114 ∷ 103 ∷ 98 ∷ 45 ∷ 109 ∷ 97 ∷ 116 ∷ 114 ∷ 105 ∷ 120 ∷ []

unfoldable pub available_backends : Compiled → List Text
available_backends c =
    simulator_name ∷ (if c.have_fpga_ftdi then fpga_ftdi_name ∷ [] else [])
    ++ ((if c.have_fpga_rpispi then fpga_rpispi_name ∷ [] else [])
        ++ (if c.have_rgb_matrix then rgb_matrix_name ∷ [] else []))

-- `std::invalid_argument`, a null factory, or the factory of a device.
pub data Factory : Type 0 where
  invalid no_factory : Factory
  device : HardwareType → Factory

unfoldable pub make_hardware_renderer_factory : Compiled → Text → Factory
make_hardware_renderer_factory c backend =
    if text_eq backend simulator_name
    then no_factory
    else if c.have_fpga_ftdi && text_eq backend fpga_ftdi_name
    then device fpga_ftdi
    else if c.have_fpga_rpispi && text_eq backend fpga_rpispi_name
    then device fpga_rpispi
    else if c.have_rgb_matrix && text_eq backend rgb_matrix_name
    then device rgb_matrix
    else invalid

unfoldable pub hardware_type_for_backend : Text → Option HardwareType
hardware_type_for_backend backend =
    if text_eq backend simulator_name
    then some simulator
    else if text_eq backend fpga_ftdi_name
    then some fpga_ftdi
    else if text_eq backend fpga_rpispi_name
    then some fpga_rpispi
    else if text_eq backend rgb_matrix_name
    then some rgb_matrix
    else none

unfoldable pub simulator_port_of : ServerConfig → Text
simulator_port_of config =
    if is_empty_text config.simulator_port then default_simulator_port else config.simulator_port

unfoldable pub tick_ms_of : ServerConfig → ℤ
tick_ms_of config =
    if leb_ℤ config.tick_interval_ms (pos 0) then pos 1000 else config.tick_interval_ms

-- A renderer as it is made: a device, or the one for the browser with its port and whether it streams
-- pixels.
pub data Renderer : Type 0 where
  hardware : HardwareType → Renderer
  web_socket : Text → Bool → Renderer

-- What the server runs with: its screens, the renderers in the order of `addRenderer`, and the pause
-- between two ticks in milliseconds.
pub record Service : Type 0 where
  pub config : ServerConfig
  pub screens : List Screen
  pub renderers : List Renderer
  pub tick_ms : ℤ

unfoldable pub renderers_of : Factory → Text → List Renderer
renderers_of invalid port = []
renderers_of no_factory port = web_socket port true ∷ []
renderers_of (device hw) port = hardware hw ∷ web_socket port false ∷ []

-- What the constructors of the renderers and of the server ask of the system and of the standard
-- library: whether a renderer can be made for the screens (it throws where a device or a port cannot
-- be opened), the number that `std::stoi` reads, if it does not throw, and whether the server's TCP
-- port can be bound and its message queue made.
pub record Opens : Type 0 where
  pub opens : List Screen → Renderer → Bool
  pub stoi : Text → Option ℤ
  pub binds : ℤ → Bool
  pub makes_queue : Bool

-- Whether the constructor of `Server` ends without an exception.
unfoldable pub server_starts : Opens → ServerConfig → Bool
server_starts o config = elim (o.stoi (connection_of config).server_port) [
  | none ↦ false
  | some port ↦ o.binds port && o.makes_queue
]

unfoldable pub all_open : (Renderer → Bool) → List Renderer → Bool
all_open opens [] = true
all_open opens (r ∷ rs) = opens r && all_open opens rs

-- The process ends with a code, or serves.
pub data Start : Type 0 where
  ends : ℕ → Start
  serves : Service → Start

-- An exception while it sets up, of the screens, a renderer or the server, ends the process with 1,
-- whichever comes first.
unfoldable pub serve : Opens → Factory → ServerConfig → Start
serve opens factory config = elim (create_screens_from_config config).1 [
  | none ↦ ends 1
  | some screens ↦
      let renderers = renderers_of factory (simulator_port_of config) in
      if all_open (opens.opens screens) renderers && server_starts opens config
      then serves (record {
        config = config;
        screens = screens;
        renderers = renderers;
        tick_ms = tick_ms_of config;
      })
      else ends 1
]

unfoldable pub set_up_server : Surroundings → Opens → CommandLine → Factory → HardwareType → Start
set_up_server w opens line factory hw = elim (handle_server_config w line empty_config hw) [
  | exits ↦ ends 0
  | configured config files ↦ serve opens factory config
]

-- `backend` is `none` if Boost cannot parse the option.
unfoldable pub main : Compiled → Surroundings → Opens → CommandLine → Option Text → Start
main c w opens line none = ends 1
main c w opens line (some backend) = elim (make_hardware_renderer_factory c backend) [
  | invalid ↦ ends 1
  | no_factory ↦ elim (hardware_type_for_backend backend) [
    | none ↦ ends 1
    | some hw ↦ set_up_server w opens line no_factory hw
  ]
  | device d ↦ elim (hardware_type_for_backend backend) [
    | none ↦ ends 1
    | some hw ↦ set_up_server w opens line (device d) hw
  ]
]
