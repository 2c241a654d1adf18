-- ===== src/Cube/Plane.antt =====
-- application/CubeApplication.cpp: lines, circles, rectangles and bitmaps on a face of the cube. Each
-- `while` runs on fuel: `stuck` is no behaviour of the code. `undefined` is an access that a panel
-- reports, the point that `getPointOnScreen` does not assign, or an `int` of a line that overflows.
use matrixserver.Common.{
  leb, ℕ, zero, suc, ◌+◌, Bool, true, false, List, [], ◌∷◌, some, none, ◌&&◌, if◌then◌else◌, ◌/◌,
}
use matrixserver.Common.Int.{
  ℤ, pos, negsuc, ◌+ℤ◌, ◌-ℤ◌, ◌*ℤ◌, ◌==ℤ◌, ltb_ℤ, leb_ℤ, pos_part, neg_part,
}
use matrixserver.Cobs.Defs.{Outcome, returns, undefined, stuck, ◌>>=ₒ◌}
use matrixserver.Graphics.Color.{Color}
use matrixserver.Graphics.Screen.{Screen}
use matrixserver.Cube.Points.{ScreenNumber, get_point_on_screen}
use matrixserver.Cube.Drawing.{set_pixel_3d, magnitude}

-- `setPixel3D(getPointOnScreen(screenNr, Vector2i(x, y)), col)`
unfoldable pub plot : ScreenNumber → ℤ → ℤ → Color → List Screen → Outcome (List Screen)
plot n x y col screens = elim (get_point_on_screen n x y) [
  | none ↦ undefined
  | some p ↦ elim (set_pixel_3d p col none false screens) [
    | none ↦ undefined
    | some drawn ↦ returns drawn
  ]
]

-- The variables that the loop of `drawLine2D` changes.
pub record LineState : Type 0 where
  pub x : ℤ
  pub y : ℤ
  pub err : ℤ

-- `dy` is not positive; both tests use the error before the round.
unfoldable pub line_step : ℤ → ℤ → ℤ → ℤ → LineState → LineState
line_step dx dy sx sy s =
    let e2 = pos 2 *ℤ s.err in
    let over = ltb_ℤ dy e2 in
    let under = ltb_ℤ e2 dx in
    let err_x = if over then s.err +ℤ dy else s.err in
    record {
      x = if over then s.x +ℤ sx else s.x;
      y = if under then s.y +ℤ sy else s.y;
      err = if under then err_x +ℤ dx else err_x;
    }

abbrev pub fits_int : ℤ → Bool
fits_int z = leb (pos_part z) 2147483647 && leb (neg_part z) 2147483648

-- No value that a round computes overflows.
unfoldable pub step_fits : ℤ → ℤ → ℤ → ℤ → LineState → Bool
step_fits dx dy sx sy s =
    let e2 = pos 2 *ℤ s.err in
    let next = line_step dx dy sx sy s in
    fits_int e2
    && (fits_int (if ltb_ℤ dy e2 then s.err +ℤ dy else s.err)
        && (fits_int next.err && (fits_int next.x && fits_int next.y)))

unfoldable pub line_2d_loop :
    ℕ
    → ScreenNumber
    → ℤ
    → ℤ
    → ℤ
    → ℤ
    → ℤ
    → ℤ
    → LineState
    → Color
    → List Screen
    → Outcome (List Screen)
line_2d_loop zero n x1 y1 dx dy sx sy s col screens = stuck
line_2d_loop (suc fuel) n x1 y1 dx dy sx sy s col screens = plot n s.x s.y col screens >>=ₒ λ drawn.
    elim ((s.x ==ℤ x1) && (s.y ==ℤ y1)) [
      | true ↦ returns drawn
      | false ↦ elim (step_fits dx dy sx sy s) [
        | true ↦ line_2d_loop fuel n x1 y1 dx dy sx sy (line_step dx dy sx sy s) col drawn
        | false ↦ undefined
      ]
    ]

abbrev pub toward : ℤ → ℤ → ℤ
toward a b = if ltb_ℤ a b then pos 1 else negsuc 0

unfoldable pub draw_line_2d :
    ScreenNumber → ℤ → ℤ → ℤ → ℤ → Color → List Screen → Outcome (List Screen)
draw_line_2d n x0 y0 x1 y1 col screens =
    let p = magnitude (x1 -ℤ x0) in
    let q = magnitude (y1 -ℤ y0) in
    let dx = pos p in
    let dy = pos 0 -ℤ pos q in
    if fits_int (x1 -ℤ x0) && (fits_int dx && (fits_int (y1 -ℤ y0) && fits_int (pos q)))
    then line_2d_loop (p + q + 1) n x1 y1 dx dy (toward x0 x1) (toward y0 y1)
        (record { x = x0; y = y0; err = dx +ℤ dy }) col screens
    else undefined

-- The eight points of a round of `drawCircle2D`.
unfoldable pub circle_points :
    ScreenNumber → ℤ → ℤ → ℤ → ℤ → Color → List Screen → Outcome (List Screen)
circle_points n x0 y0 x y col s0 =
    let minus : ℤ → ℤ = λ (a : ℤ). pos 0 -ℤ a in
    plot n (x +ℤ x0) (y +ℤ y0) col s0 >>=ₒ λ s1. plot n (y +ℤ x0) (x +ℤ y0) col s1 >>=ₒ λ s2.
    plot n (minus x +ℤ x0) (y +ℤ y0) col s2 >>=ₒ λ s3.
    plot n (minus y +ℤ x0) (x +ℤ y0) col s3 >>=ₒ λ s4.
    plot n (minus x +ℤ x0) (minus y +ℤ y0) col s4 >>=ₒ λ s5.
    plot n (minus y +ℤ x0) (minus x +ℤ y0) col s5 >>=ₒ λ s6.
    plot n (x +ℤ x0) (minus y +ℤ y0) col s6 >>=ₒ λ s7. plot n (y +ℤ x0) (minus x +ℤ y0) col s7

unfoldable pub circle_loop :
    ℕ → ScreenNumber → ℤ → ℤ → ℤ → ℤ → ℤ → Color → List Screen → Outcome (List Screen)
circle_loop zero n x0 y0 x y radius_error col screens = elim (leb_ℤ y x) [
  | true ↦ stuck
  | false ↦ returns screens
]
circle_loop (suc fuel) n x0 y0 x y radius_error col screens = elim (leb_ℤ y x) [
  | false ↦ returns screens
  | true ↦ circle_points n x0 y0 x y col screens >>=ₒ λ drawn.
      let next = y +ℤ pos 1 in
      elim (ltb_ℤ radius_error (pos 0)) [
        | true ↦
            circle_loop fuel n x0 y0 x next (radius_error +ℤ (pos 2 *ℤ next +ℤ pos 1)) col drawn
        | false ↦
            circle_loop fuel n x0 y0 (x -ℤ pos 1) next
              (radius_error +ℤ pos 2 *ℤ (next -ℤ (x -ℤ pos 1) +ℤ pos 1)) col drawn
      ]
]

unfoldable pub draw_circle_2d :
    ScreenNumber → ℤ → ℤ → ℤ → Color → List Screen → Outcome (List Screen)
draw_circle_2d n x0 y0 radius col screens =
    circle_loop (pos_part radius + 1) n x0 y0 radius (pos 0) (pos 1 -ℤ radius) col screens

-- `for (i = x; ...)` with the number of rounds left.
unfoldable pub fill_loop :
    ℕ → ScreenNumber → ℤ → ℤ → ℤ → Color → List Screen → Outcome (List Screen)
fill_loop zero n x y0 y1 col screens = returns screens
fill_loop (suc k) n x y0 y1 col screens =
    draw_line_2d n x y0 x y1 col screens >>=ₒ λ drawn. fill_loop k n (x +ℤ pos 1) y0 y1 col drawn

unfoldable pub draw_rect_2d :
    ScreenNumber → ℤ → ℤ → ℤ → ℤ → Color → Bool → Color → List Screen → Outcome (List Screen)
draw_rect_2d n x0 y0 x1 y1 col filled fill_color screens =
    (if filled
      then fill_loop (pos_part (x1 -ℤ x0)) n x0 y0 y1 fill_color screens
      else returns screens)
    >>=ₒ λ s0. draw_line_2d n x0 y0 x0 y1 col s0 >>=ₒ λ s1.
        draw_line_2d n x0 y0 x1 y0 col s1 >>=ₒ λ s2.
        draw_line_2d n x1 y1 x0 y1 col s2 >>=ₒ λ s3. draw_line_2d n x1 y1 x1 y0 col s3

-- `a / 2`, cut towards zero.
abbrev pub half : ℤ → ℤ
half (pos a) = pos (a / 2)
half (negsuc a) = pos 0 -ℤ pos ((a + 1) / 2)

-- The lower edge is taken from `w`, as in the code.
unfoldable pub draw_rect_centered_2d :
    ScreenNumber → ℤ → ℤ → ℤ → ℤ → Color → Bool → Color → List Screen → Outcome (List Screen)
draw_rect_centered_2d n x0 y0 w h col filled fill_color screens =
    draw_rect_2d n (x0 -ℤ half w) (y0 -ℤ half h) (x0 +ℤ half w) (y0 +ℤ half w) col filled fill_color
      screens

-- The points that are set of a bitmap.
abbrev pub Bitmap1bpp : Type 0
Bitmap1bpp = List (ℕ × ℕ)

unfoldable pub draw_bitmap_1bpp :
    ScreenNumber → ℤ → ℤ → Color → Bitmap1bpp → List Screen → Outcome (List Screen)
draw_bitmap_1bpp n x y col [] screens = returns screens
draw_bitmap_1bpp n x y col ((i, j) ∷ bitmap) screens =
    plot n (x +ℤ pos i) (y +ℤ pos j) col screens >>=ₒ λ drawn.
    draw_bitmap_1bpp n x y col bitmap drawn
