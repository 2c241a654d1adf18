-- ===== src/Graphics/Tests.antt =====
-- Runs of the colours and of one panel at concrete inputs.
use matrixserver.Common.{◌≡◌, refl, some, false}
use matrixserver.Common.Int.{pos}
use matrixserver.Graphics.Color.{Color}
use matrixserver.Graphics.Screen.{Screen, new_screen, set_pixel}
use matrixserver.Graphics.Draws.{IsDrawn, set_pixel_lem}

abbrev orange : Color
orange = record { r = 200; g = 100; b = 0 }

abbrev dim : Color
dim = record { r = 10; g = 20; b = 30 }

abbrev small : Screen
small = new_screen 3 2 (pos 0)

set_pixel_lem_example :
    (t : Screen) × (set_pixel small (pos 2) (pos 1) orange false ≡ some t)
    × IsDrawn small t (pos 2) (pos 1) orange false
unfolding new_screen
set_pixel_lem_example = set_pixel_lem small (pos 2) (pos 1) orange false refl
