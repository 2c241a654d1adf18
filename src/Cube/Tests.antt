-- ===== src/Cube/Tests.antt =====
-- Runs of the cube at concrete inputs.
use matrixserver.Common.{◌≡◌, refl, List, [], ◌∷◌, some, arith, ℕ, inl}
use matrixserver.Common.Sequences.{All}
use matrixserver.Common.Int.{ℤ, pos, negsuc}
use matrixserver.Graphics.Color.{Color}
use matrixserver.Graphics.Screen.{Screen, new_screen}
use matrixserver.Cube.Points.{Point, back, top, get_point_on_screen}
use matrixserver.Cube.Plane.{draw_line_2d}
use matrixserver.Cube.Text.{draw_text, text_points, plot_all}
use matrixserver.Cube.Font.{centered}
use matrixserver.Cube.PlaneLines.{Draws, draw_line_2d_lem}
use matrixserver.Cube.TextLayout.{OnFace, in_centre, draw_text_lem}
use matrixserver.Cube.Surface.{IsPlaced, point_on_screen_lem}
use matrixserver.Cube.Lines.{IsCube}

abbrev panel : ℤ → Screen
panel i = new_screen 2 2 i

abbrev six : List Screen
six =
    panel (pos 0)
    ∷ panel (pos 1)
    ∷ panel (pos 2)
    ∷ panel (pos 3)
    ∷ panel (pos 4)
    ∷ panel (pos 5)
    ∷ []

six-IsCube : IsCube six
unfolding new_screen
six-IsCube = (omega arith, (refl, (refl, (refl, (refl, (refl, (refl, tt)))))))

abbrev white : Color
white = record { r = 255; g = 255; b = 255 }

point_on_screen_lem_example :
    (p : Point) × (get_point_on_screen back (pos 3) (pos 63) ≡ some p) × IsPlaced back 3 63 p
point_on_screen_lem_example =
    point_on_screen_lem back 3 63 (ground arith) (omega arith) (omega arith)

draw_line_2d_lem_example : Draws (draw_line_2d back (negsuc 2) (pos 7) (pos 9) (pos 0) white six)
draw_line_2d_lem_example =
    draw_line_2d_lem back (negsuc 2) (pos 7) (pos 9) (pos 0) white six refl
      (omega arith, omega arith) (omega arith, omega arith) (omega arith, omega arith)
      (omega arith, omega arith) six-IsCube

-- `Hi!`
abbrev greeting : List ℕ
greeting = 72 ∷ 105 ∷ 33 ∷ []

draw_text_lem_example :
    Draws (draw_text top centered (pos 5) white greeting six)
    × (draw_text top centered (pos 5) white greeting six
        ≡ plot_all top white (text_points centered (pos 5) greeting) six)
    × All OnFace (text_points centered (pos 5) greeting)
draw_text_lem_example =
    draw_text_lem top centered (pos 5) white greeting six refl six-IsCube
      (in_centre refl (omega arith)) (inl (omega arith, omega arith))
