-- ===== src/Cube/Text.antt =====
-- `drawText` of application/CubeApplication.cpp, and the points of a face on which a text is drawn.
use matrixserver.Common.{ℕ, Bool, true, false, List, [], ◌∷◌, ◌++◌, if◌then◌else◌}
use matrixserver.Common.Int.{ℤ, pos, ◌+ℤ◌, ◌-ℤ◌, ◌==ℤ◌, ltb_ℤ}
use matrixserver.Cobs.Defs.{Outcome, returns, ◌>>=ₒ◌}
use matrixserver.Graphics.Color.{Color}
use matrixserver.Graphics.Screen.{Screen}
use matrixserver.Cube.Points.{ScreenNumber}
use matrixserver.Cube.Plane.{plot, half, Bitmap1bpp, draw_bitmap_1bpp}
use matrixserver.Cube.Font.{
  font_width, font_height, centered, right_aligned, get_string_width, get_bitmap_from_char,
}

abbrev pub cube_size : ℤ
cube_size = pos 64

-- Where `posIterator` starts.
unfoldable pub text_start_x : ℤ → List ℕ → ℤ
text_start_x x text =
    if x ==ℤ right_aligned
    then cube_size -ℤ pos (get_string_width text)
    else if x ==ℤ centered
    then half (cube_size -ℤ pos (get_string_width text))
    else x

unfoldable pub text_start_y : ℤ → ℤ
text_start_y y = if y ==ℤ centered then half (cube_size -ℤ pos font_height) else y

-- Past the last column the text goes on below, at the `left` that the caller gave.
unfoldable pub wraps : ℤ → Bool
wraps x = ltb_ℤ (cube_size -ℤ pos font_width) (x +ℤ pos font_width)

unfoldable pub next_x : ℤ → ℤ → ℤ
next_x left x = if wraps x then left else x +ℤ pos font_width

unfoldable pub next_y : ℤ → ℤ → ℤ
next_y x y = if wraps x then y +ℤ pos font_height else y

unfoldable pub is_full : ℤ → Bool
is_full y = ltb_ℤ (cube_size -ℤ pos font_height) y

unfoldable pub text_loop :
    ScreenNumber → ℤ → ℤ → ℤ → Color → List ℕ → List Screen → Outcome (List Screen)
text_loop n left x y col [] screens = returns screens
text_loop n left x y col (c ∷ text) screens =
    draw_bitmap_1bpp n x y col (get_bitmap_from_char c) screens >>=ₒ λ drawn.
    elim (is_full (next_y x y)) [
      | true ↦ returns drawn
      | false ↦ text_loop n left (next_x left x) (next_y x y) col text drawn
    ]

unfoldable pub draw_text :
    ScreenNumber → ℤ → ℤ → Color → List ℕ → List Screen → Outcome (List Screen)
draw_text n x y col text screens =
    text_loop n x (text_start_x x text) (text_start_y y) col text screens

-- The points that are plotted, in order.
unfoldable pub bitmap_points : ℤ → ℤ → Bitmap1bpp → List (ℤ × ℤ)
bitmap_points x y [] = []
bitmap_points x y ((i, j) ∷ bitmap) = (x +ℤ pos i, y +ℤ pos j) ∷ bitmap_points x y bitmap

unfoldable pub points_from : ℤ → ℤ → ℤ → List ℕ → List (ℤ × ℤ)
points_from left x y [] = []
points_from left x y (c ∷ text) =
    bitmap_points x y (get_bitmap_from_char c) ++ elim (is_full (next_y x y)) [
      | true ↦ []
      | false ↦ points_from left (next_x left x) (next_y x y) text
    ]

unfoldable pub text_points : ℤ → ℤ → List ℕ → List (ℤ × ℤ)
text_points x y text = points_from x (text_start_x x text) (text_start_y y) text

unfoldable pub plot_all : ScreenNumber → Color → List (ℤ × ℤ) → List Screen → Outcome (List Screen)
plot_all n col [] screens = returns screens
plot_all n col ((x, y) ∷ points) screens =
    plot n x y col screens >>=ₒ λ drawn. plot_all n col points drawn
