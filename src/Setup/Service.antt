-- ===== src/Setup/Service.antt =====
-- What `main` starts for each backend.
use matrixserver.Common.{
  ◌≡◌, refl, ap, ◌∙◌, Bool, true, false, List, [], ◌∷◌, some, none, arith, if◌then◌else◌, inl, inr,
}
use matrixserver.Graphics.Screen.{Screen}
use matrixserver.Cube.Lines.{IsCube}
use matrixserver.Protocol.{Text, ServerConfig, empty_config}
use matrixserver.Common.Int.{pos}
use matrixserver.Setup.Defaults.{
  HardwareType, simulator, fpga_ftdi, fpga_rpispi, rgb_matrix, create_default_cube_config,
  default_simulator_port, default_tick_ms, default_server_port,
}
use matrixserver.Setup.Screens.{create_screens_from_config}
use matrixserver.Setup.DefaultCube.{create_default_cube_config_lem}
use matrixserver.Setup.Files.{
  CommandLine, options, Surroundings, configured, etc_path, local_path, connection_of, is_yes,
  written_config, load_config, override_address, handle_server_config,
}
use matrixserver.Setup.Restart.{no_file}
use matrixserver.Setup.Start.{
  Compiled, available_backends, Factory, make_hardware_renderer_factory, hardware_type_for_backend,
  simulator_port_of, tick_ms_of, Renderer, hardware, web_socket, Service, renderers_of, ends, Opens,
  all_open, serves, serve, server_starts, set_up_server, main,
}
use matrixserver.Setup.Backends.{
  is_listed, Chosen, chosen, Matches, no_device, same_ftdi, same_rpispi, same_rgb,
}

-- A backend that is not among the available ones ends the process with 1.
pub main_unknown_backend :
    (c : Compiled) (w : Surroundings) (opens : Opens) (line : CommandLine) (b : Text)
    → is_listed b (available_backends c) ≡ false
    → main c w opens line (some b) ≡ ends 1
unfolding main Chosen
main_unknown_backend c w opens line b e = elim (chosen c b) [
  | inl u ↦ rw (u.1, main) refl
  | inr k ↦ absurd (ground (arith, e, k.2))
]

-- The renderers that belong to a kind of hardware.
abbrev pub expected_renderers : HardwareType → List Renderer
expected_renderers simulator = web_socket default_simulator_port true ∷ []
expected_renderers fpga_ftdi = hardware fpga_ftdi ∷ web_socket default_simulator_port false ∷ []
expected_renderers fpga_rpispi = hardware fpga_rpispi ∷ web_socket default_simulator_port false ∷ []
expected_renderers rgb_matrix = hardware rgb_matrix ∷ web_socket default_simulator_port false ∷ []

overridden :
    (address : Text) (config : ServerConfig)
    → ((override_address address config).screen_info ≡ config.screen_info)
      × (simulator_port_of (override_address address config) ≡ simulator_port_of config)
      × (tick_ms_of (override_address address config) ≡ tick_ms_of config)
unfolding override_address simulator_port_of tick_ms_of
overridden [] config = (refl, refl, refl)
overridden (k ∷ address) config = (refl, refl, refl)

screens_of_overridden :
    (address : Text) (config : ServerConfig)
    → (create_screens_from_config (override_address address config)).1
      ≡ (create_screens_from_config config).1
unfolding override_address create_screens_from_config
screens_of_overridden [] config = refl
screens_of_overridden (k ∷ address) config = refl

renderers_of-default :
    (f : Factory) (hw : HardwareType)
    → Matches f hw
    → renderers_of f (simulator_port_of (create_default_cube_config hw)) ≡ expected_renderers hw
unfolding renderers_of simulator_port_of create_default_cube_config
renderers_of-default f simulator no_device = refl
renderers_of-default f fpga_ftdi same_ftdi = refl
renderers_of-default f fpga_rpispi same_rpispi = refl
renderers_of-default f rgb_matrix same_rgb = refl

tick_ms_of-default :
    (hw : HardwareType) → tick_ms_of (create_default_cube_config hw) ≡ default_tick_ms hw
unfolding tick_ms_of create_default_cube_config default_tick_ms
tick_ms_of-default simulator = refl
tick_ms_of-default fpga_ftdi = refl
tick_ms_of-default fpga_rpispi = refl
tick_ms_of-default rgb_matrix = refl

opens_all :
    (opens : Renderer → Bool) (rs : List Renderer)
    → ((r : Renderer) → opens r ≡ true)
    → all_open opens rs ≡ true
unfolding all_open
opens_all opens [] h = refl
opens_all opens (r ∷ rs) h = rw (h r, opens_all opens rs h) refl

-- Every renderer can be made, `std::stoi` reads the default port, which can be bound, and the message
-- queue can be made.
pub record IsAble (o : Opens) : Type 0 where
  pub renderers : (screens : List Screen) (r : Renderer) → o.opens screens r ≡ true
  pub number : o.stoi default_server_port ≡ some (pos 2017)
  pub port : o.binds (pos 2017) ≡ true
  pub queue : o.makes_queue ≡ true

server_starts-default :
    (o : Opens) (hw : HardwareType) (address : Text)
    → IsAble o
    → server_starts o (override_address address (create_default_cube_config hw)) ≡ true
unfolding server_starts override_address connection_of create_default_cube_config
server_starts-default o hw [] able =
    rw (able.number, server_starts) (rw (able.port, able.queue) refl)
server_starts-default o hw (k ∷ address) able =
    rw (able.number, server_starts) (rw (able.port, able.queue) refl)

serve_default :
    (opens : Opens) (f : Factory) (hw : HardwareType) (address : Text)
    → IsAble opens
    → Matches f hw
    → (s : Service) × (serve opens f (override_address address (create_default_cube_config hw))
        ≡ serves s)
      × IsCube s.screens
      × (s.config ≡ override_address address (create_default_cube_config hw))
      × (s.renderers ≡ expected_renderers hw)
      × (s.tick_ms ≡ default_tick_ms hw)
unfolding serve
serve_default opens f hw address o m =
    let config = override_address address (create_default_cube_config hw) in
    let (screens, made, cubes, numbers, warned) = create_default_cube_config_lem hw in
    let (infos, port, tick) = overridden address (create_default_cube_config hw) in
    (
      record {
        config = config;
        screens = screens;
        renderers = renderers_of f (simulator_port_of config);
        tick_ms = tick_ms_of config;
      },
      rw (screens_of_overridden address (create_default_cube_config hw) ∙ made, serve)
          (rw
            (
              opens_all (opens.opens screens) (renderers_of f (simulator_port_of config))
                  (o.renderers screens),
              server_starts-default opens hw address o,
            )
            refl),
      cubes,
      refl,
      ap (renderers_of f) port ∙ renderers_of-default f hw m,
      tick ∙ tick_ms_of-default hw,
    )

default_config :
    (w : Surroundings) (hw : HardwareType) (address : Text) (before : ServerConfig)
    → w.file etc_path ≡ none
    → w.file local_path ≡ none
    → (files : List (Text × Text)) × (handle_server_config w (options [] address) before hw
        ≡ configured (override_address address (create_default_cube_config hw)) files)
unfolding handle_server_config load_config
default_config w hw address before e l = (
  if is_yes w then written_config w (create_default_cube_config hw) else [],
  rw (no_file w e l) refl,
)

main_starts :
    (c : Compiled) (w : Surroundings) (opens : Opens) (line : CommandLine) (b : Text) (f : Factory)
    (hw : HardwareType)
    → make_hardware_renderer_factory c b ≡ f
    → hardware_type_for_backend b ≡ some hw
    → Matches f hw
    → main c w opens line (some b) ≡ set_up_server w opens line f hw
unfolding main
main_starts c w opens line b f hw e t no_device = rw (e, main) (rw (t, main) refl)
main_starts c w opens line b f hw e t same_ftdi = rw (e, main) (rw (t, main) refl)
main_starts c w opens line b f hw e t same_rpispi = rw (e, main) (rw (t, main) refl)
main_starts c w opens line b f hw e t same_rgb = rw (e, main) (rw (t, main) refl)

-- Without a configuration file, and if the renderers can be made, the default port 2017 can be read
-- and bound and the message queue made, an available backend makes the process serve: with the default configuration of the backend's hardware and the address of the
-- command line, six screens that are a cube, the device's renderer, if there is one, before the
-- browser's, which streams pixels exactly for the simulator, and the hardware's pause between ticks.
pub main_default_lem :
    (c : Compiled) (w : Surroundings) (opens : Opens) (address b : Text)
    → w.file etc_path ≡ none
    → w.file local_path ≡ none
    → IsAble opens
    → is_listed b (available_backends c) ≡ true
    → (hw : HardwareType) × (s : Service) × (hardware_type_for_backend b ≡ some hw)
      × (main c w opens (options [] address) (some b) ≡ serves s)
      × IsCube s.screens
      × (s.config ≡ override_address address (create_default_cube_config hw))
      × (s.renderers ≡ expected_renderers hw)
      × (s.tick_ms ≡ default_tick_ms hw)
unfolding Chosen set_up_server
main_default_lem c w opens address b e l o a = elim (chosen c b) [
  | inl u ↦ absurd (ground (arith, a, u.0))
  | inr (hw, f, listed, made, type, m) ↦
      let (s, served, cubes, config, renderers, tick) = serve_default opens f hw address o m in
      let (files, loaded) = default_config w hw address empty_config e l in
      (
        hw,
        s,
        type,
        main_starts c w opens (options [] address) b f hw made type m
            ∙ rw (loaded, set_up_server) served,
        cubes,
        config,
        renderers,
        tick,
      )
]
