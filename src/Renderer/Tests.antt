-- ===== src/Renderer/Tests.antt =====
-- Runs of the renderers at concrete inputs.
use matrixserver.Common.{
  ℕ, ◌≡◌, refl, List, [], ◌∷◌, Option, some, none, true, false, length, get_elem?, arith, ◌*◌, ◌≤◌,
  replicate, length-replicate,
}
use matrixserver.Common.Int.{pos}
use matrixserver.Common.Sequences.{All}
use matrixserver.Graphics.Color.{Color, black}
use matrixserver.Graphics.Screen.{Screen, new_screen, rot90}
use matrixserver.Graphics.Pixels.{IsValid}
use matrixserver.Renderer.Rotation.{spi_color, ftdi_color, rgb_pixel}
use matrixserver.Renderer.Turned.{inverse, round_x, round_y, placed, rotation_lem}
use matrixserver.Renderer.Spi.{init_geometry, SpiQueue, spi_render}
use matrixserver.Renderer.SpiRows.{IsPanel, cube_geometry}
use matrixserver.Renderer.SpiFrame.{spi_render_lem}
use matrixserver.Protocol.{Message}
use matrixserver.Renderer.WebSocket.{
  WsRenderer, new_ws_renderer, new_session, on_connection, on_session_event, received, accepted,
  render,
}
use matrixserver.Renderer.Browsers.{Event, connected, happened, rendered, stale_close}

abbrev color : ℕ → Color
color k = record { r = k; g = 10 * k; b = 255 }

abbrev panel : Screen
panel = record (new_screen 2 2 (pos 0)) { screen_data = color 1 ∷ color 2 ∷ color 3 ∷ color 4 ∷ [] }

panel-IsValid : IsValid panel
unfolding new_screen
panel-IsValid = refl

panel_width : (panel.width ≡ 2) × (panel.height ≡ 2)
unfolding new_screen
panel_width = (refl, refl)

rotation_lem_example :
    (c : Color) × (spi_color 2 2 panel rot90 0 1 ≡ some c)
    × (ftdi_color 2 2 panel rot90 0 1 ≡ some c)
    × (rgb_pixel panel (pos 1) (pos 0) (inverse rot90) (round_x 2 rot90 0) (round_y 2 rot90 1)
        ≡ some (placed 2 (pos 1) (pos 0) 0 1 c))
rotation_lem_example =
    rotation_lem panel 2 0 1 (pos 1) (pos 0) rot90 panel-IsValid panel_width.0 panel_width.1
      (omega arith) (omega arith)

abbrev cube_panel : ℕ → Screen
cube_panel c = record (new_screen 64 64 (pos c)) {
  offset_x = some (pos c);
  offset_y = some (pos 1);
  rotation = some rot90;
}

cube_panel-IsPanel : (c : ℕ) → c ≤ 2 → IsPanel (cube_panel c)
unfolding new_screen
cube_panel-IsPanel c l = record {
  valid = length-replicate (64 * 64) black;
  width = refl;
  height = refl;
  column = c;
  fits = l;
  offset_x = refl;
  row = pos 1;
  offset_y = refl;
  turn = rot90;
  rotation = refl;
}

abbrev six_panels : List Screen
six_panels =
    cube_panel 0 ∷ cube_panel 1 ∷ cube_panel 2 ∷ cube_panel 0 ∷ cube_panel 1 ∷ cube_panel 2 ∷ []

six_panels-IsPanel : All IsPanel six_panels
six_panels-IsPanel = (first, (second, (third, (first, (second, (third, tt))))))
  where
    first : IsPanel (cube_panel 0)
    first = cube_panel-IsPanel 0 (omega arith)

    second : IsPanel (cube_panel 1)
    second = cube_panel-IsPanel 1 (omega arith)

    third : IsPanel (cube_panel 2)
    third = cube_panel-IsPanel 2 (omega arith)

abbrev the_zero : ℕ
the_zero = 0

blank : length (replicate 512 the_zero) ≡ 512
blank = length-replicate 512 the_zero

spi_render_lem_example :
    (init_geometry six_panels ≡ some cube_geometry)
    × ((after : List ℕ) × (q : SpiQueue) × (spi_render cube_geometry none six_panels
            (replicate 512 the_zero)
          ≡ some (after, q))
        × (length q.transfers ≡ 257)
        × (q.used ≡ 49538))
spi_render_lem_example =
    spi_render_lem none six_panels (replicate 512 the_zero) refl six_panels-IsPanel blank

-- The text of a message is of no interest here.
abbrev one_byte : Message → Option (List ℕ)
one_byte m = some (7 ∷ [])

abbrev first_run : List Event
first_run =
    connected false ∷ happened 0 (accepted false) ∷ rendered ∷ connected false ∷ rendered ∷ []

abbrev two_browsers : WsRenderer
two_browsers = record (new_ws_renderer [] true) {
  sessions =
      record new_session { write_queue = (7 ∷ []) ∷ []; is_writing = true; reading = true }
      ∷ record new_session { write_queue = (7 ∷ []) ∷ []; is_writing = true }
      ∷ [];
  active_session = some 1;
}

stale_close_example :
    (u : WsRenderer) × (on_session_event 1 (received true []) (on_connection false two_browsers)
      ≡ some u)
    × (get_elem? u.sessions (length two_browsers.sessions) ≡ some new_session)
    × (u.active_session ≡ none)
    × (render one_byte u ≡ some u)
stale_close_example = stale_close one_byte two_browsers 1 _ [] refl
