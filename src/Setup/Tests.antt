-- ===== src/Setup/Tests.antt =====
-- Runs of the start of the server at concrete inputs.
use matrixserver.Common.{◌≡◌, refl, true, false, [], ◌∷◌, some, none, ◌↔◌}
use matrixserver.Cube.Lines.{IsCube}
use matrixserver.Setup.Defaults.{
  HardwareType, fpga_ftdi, fpga_rpispi, create_default_cube_config, default_tick_ms,
}
use matrixserver.Setup.Screens.{warn_if_config_suspicious}
use matrixserver.Setup.Warnings.{IsDistinct, HasNoGaps, warn_if_config_suspicious_lem}
use matrixserver.Setup.Files.{Surroundings, options, override_address}
use matrixserver.Common.Int.{pos}
use matrixserver.Setup.Backends.{is_listed}
use matrixserver.Setup.Start.{
  Opens, Compiled, Service, serves, main, rgb_matrix_name, hardware_type_for_backend,
  available_backends,
}
use matrixserver.Setup.Service.{expected_renderers, main_default_lem}

-- A machine without a configuration file, on whose terminal `y` is typed. Its JSON knows one
-- configuration.
abbrev machine : Surroundings
machine = record {
  file = λ path. none;
  can_write = λ path. true;
  is_interactive = true;
  answer = 121 ∷ [];
  from_json = λ text before. (true, create_default_cube_config fpga_rpispi);
  to_json = λ c. some (123 ∷ 125 ∷ []);
}

abbrev all_backends : Compiled
all_backends = record { have_fpga_ftdi = true; have_fpga_rpispi = false; have_rgb_matrix = true }

warn_if_config_suspicious_lem_example :
    (warn_if_config_suspicious (create_default_cube_config fpga_ftdi) ≡ []) ↔ (
      IsDistinct (create_default_cube_config fpga_ftdi).screen_info
      × HasNoGaps (create_default_cube_config fpga_ftdi).screen_info)
warn_if_config_suspicious_lem_example =
    warn_if_config_suspicious_lem (create_default_cube_config fpga_ftdi)

-- A system where everything opens.
abbrev open_system : Opens
open_system = record {
  opens = λ screens r. true;
  stoi = λ text. some (pos 2017);
  binds = λ port. true;
  makes_queue = true;
}

rgb_matrix_listed : is_listed rgb_matrix_name (available_backends all_backends) ≡ true
unfolding is_listed available_backends
rgb_matrix_listed = refl

main_default_lem_example :
    (hw : HardwareType) × (s : Service) × (hardware_type_for_backend rgb_matrix_name ≡ some hw)
    × (main all_backends machine open_system (options [] []) (some rgb_matrix_name) ≡ serves s)
    × IsCube s.screens
    × (s.config ≡ override_address [] (create_default_cube_config hw))
    × (s.renderers ≡ expected_renderers hw)
    × (s.tick_ms ≡ default_tick_ms hw)
main_default_lem_example =
    main_default_lem all_backends machine open_system [] rgb_matrix_name refl refl
      (record { renderers = λ screens r. refl; number = refl; port = refl; queue = refl })
      rgb_matrix_listed
