-- ===== src/Cube/PlaneLines.antt =====
-- Drawing on one of the six faces never fails, and the loops of the lines and circles end.
use matrixserver.Common.{
  ℕ, zero, suc, ◌+◌, ◌*◌, ◌≤◌, ◌<◌, ◌≡◌, refl, subst, Bool, true, false, List, [], ◌∷◌, some, none,
  ◌&&◌, if◌then◌else◌, arith, Bool-cases, inl, inr,
}
use matrixserver.Common.Int.{
  ℤ, pos, negsuc, ◌+ℤ◌, ◌-ℤ◌, ◌==ℤ◌, ltb_ℤ, leb_ℤ, pos_part, neg_part, +ℤ_parts, -ℤ_parts,
}
use matrixserver.Cobs.Defs.{Outcome, returns, ◌>>=ₒ◌}
use matrixserver.Graphics.Color.{Color}
use matrixserver.Graphics.Screen.{Screen}
use matrixserver.Cube.Points.{
  Point, ScreenNumber, front, right, back, left, top, bottom, any_screen, is_any_screen,
  get_point_on_screen,
}
use matrixserver.Cube.Drawing.{magnitude}
use matrixserver.Cube.Plane.{
  plot, LineState, line_2d_loop, toward, draw_line_2d, circle_points, circle_loop, draw_circle_2d,
  half, fill_loop, draw_rect_2d, draw_rect_centered_2d, Bitmap1bpp, draw_bitmap_1bpp,
}
use matrixserver.Cube.Bresenham.{
  IsAway, IsLeft, away_there, IsAway-start, Balance-start, line_step_lem,
}
use matrixserver.Cube.LineRange.{
  IsWithin, near, IsRanged, IsRanged-start, step_fits_lem, distance_fits,
}
use matrixserver.Cube.Lines.{IsCube, Succeeds, set_pixel_3d_lem}

-- The draw ends with a cube.
pub Draws : Outcome (List Screen) → Type 0
Draws o = (after : List Screen) × (o ≡ returns after) × IsCube after

pub Draws-returns : (screens : List Screen) → IsCube screens → Draws (returns screens)
unfolding Draws
Draws-returns screens v = (screens, refl, v)

pub then-Draws :
    (first : Outcome (List Screen)) (rest : List Screen → Outcome (List Screen))
    → Draws first
    → ((next : List Screen) → IsCube next → Draws (rest next))
    → Draws (first >>=ₒ rest)
unfolding Draws
then-Draws first rest (after, e, v) k = rw e (k after v)

point_on_face :
    (n : ScreenNumber) (x y : ℤ)
    → is_any_screen n ≡ false
    → (p : Point) × (get_point_on_screen n x y ≡ some p)
unfolding get_point_on_screen
point_on_face front x y e = (_, refl)
point_on_face right x y e = (_, refl)
point_on_face back x y e = (_, refl)
point_on_face left x y e = (_, refl)
point_on_face top x y e = (_, refl)
point_on_face bottom x y e = (_, refl)
point_on_face any_screen x y e = absurd (ground (arith, e))

pub plot_lem :
    (n : ScreenNumber) (x y : ℤ) (col : Color) (screens : List Screen)
    → is_any_screen n ≡ false
    → IsCube screens
    → Draws (plot n x y col screens)
unfolding plot Draws Succeeds
plot_lem n x y col screens f v =
    let (p, e) = point_on_face n x y f in
    let (after, d, w) = set_pixel_3d_lem p col none false screens v in
    (after, rw (e, plot) (rw (d, plot) refl), w)

some_left :
    (sx sy x x1 y y1 : ℤ) (a b : ℕ)
    → IsAway sx x x1 a
    → IsAway sy y y1 b
    → ((x ==ℤ x1) && (y ==ℤ y1)) ≡ false
    → 0 < a + b
some_left sx sy x x1 y y1 a b v w e = elim (Bool-cases (x ==ℤ x1)) [
  | inl f ↦
      let far : (y ==ℤ y1) ≡ false = subst (λ (t : Bool). (t && (y ==ℤ y1)) ≡ false) f e in
      omega (arith, away_there sy y y1 b w far)
  | inr f ↦ omega (arith, away_there sx x x1 a v f)
]

-- The distances and the end of a line are near.
record IsFitting (p q : ℕ) (x1 y1 : ℤ) : Type 0 where
  along_x : p ≤ 2 * near
  along_y : q ≤ 2 * near
  end_x : IsWithin near x1
  end_y : IsWithin near y1

-- The loop draws the rest of a line with `a` and `b` steps left.
line_2d_loop_lem :
    (fuel p q a b : ℕ) (n : ScreenNumber) (x1 y1 sx sy : ℤ) (s : LineState) (col : Color)
    (screens : List Screen)
    → is_any_screen n ≡ false
    → a + b < fuel
    → IsFitting p q x1 y1
    → IsRanged p q s.err
    → IsLeft p q sx sy x1 y1 a b s
    → IsCube screens
    → Draws (line_2d_loop fuel n x1 y1 (pos p) (pos 0 -ℤ pos q) sx sy s col screens)
unfolding line_2d_loop
line_2d_loop_lem zero p q a b n x1 y1 sx sy s col screens f l z r w v = absurd (omega (arith, l))
line_2d_loop_lem (suc fuel) p q a b n x1 y1 sx sy s col screens f l z r w v =
    then-Draws (plot n s.x s.y col screens) _ (plot_lem n s.x s.y col screens f v) (λ drawn u.
      elim (Bool-cases ((s.x ==ℤ x1) && (s.y ==ℤ y1))) [
        | inl e ↦ rw e (Draws-returns drawn u)
        | inr e ↦
            let more = some_left sx sy s.x x1 s.y y1 a b w.away_x w.away_y e in
            let (a', b', fewer, next) = line_step_lem p q sx sy x1 y1 a b s w more in
            let (fits, kept) =
              step_fits_lem p q sx sy x1 y1 a' b' s z.along_x z.along_y z.end_x z.end_y r next in
            rw e (
              rw fits (
                line_2d_loop_lem fuel p q a' b' n x1 y1 sx sy _ col drawn f
                  (omega (arith, fewer, l)) z kept next u))
      ])

-- On a cube and a face of it, `drawLine2D` ends, wherever the two ends are within 2 ^ 27 of the
-- origin, and leaves a cube: as many rounds as the two distances together, and one more, reach the
-- far end, and no `int` that they compute overflows.
pub draw_line_2d_lem :
    (n : ScreenNumber) (x0 y0 x1 y1 : ℤ) (col : Color) (screens : List Screen)
    → is_any_screen n ≡ false
    → IsWithin near x0
    → IsWithin near y0
    → IsWithin near x1
    → IsWithin near y1
    → IsCube screens
    → Draws (draw_line_2d n x0 y0 x1 y1 col screens)
unfolding draw_line_2d
draw_line_2d_lem n x0 y0 x1 y1 col screens f nx0 ny0 nx1 ny1 v =
    let (l, dx, px) = distance_fits x0 x1 nx0 nx1 in
    let (m, dy, py) = distance_fits y0 y1 ny0 ny1 in
    let p = magnitude (x1 -ℤ x0) in
    let q = magnitude (y1 -ℤ y0) in
    rw (dx, px, dy, py)
      (line_2d_loop_lem (p + q + 1) p q p q n x1 y1 (toward x0 x1) (toward y0 y1) _ col screens f
        (omega arith) (record { along_x = l; along_y = m; end_x = nx1; end_y = ny1 })
        (IsRanged-start p q)
        (record {
          away_x = IsAway-start x0 x1;
          away_y = IsAway-start y0 y1;
          balance = Balance-start p q;
        })
        v)

circle_points_lem :
    (n : ScreenNumber) (x0 y0 x y : ℤ) (col : Color) (screens : List Screen)
    → is_any_screen n ≡ false
    → IsCube screens
    → Draws (circle_points n x0 y0 x y col screens)
unfolding circle_points
circle_points_lem n x0 y0 x y col s0 f v = then-Draws _ _ (plot_lem n _ _ col s0 f v) λ s1 v1.
    then-Draws _ _ (plot_lem n _ _ col s1 f v1) λ s2 v2.
      then-Draws _ _ (plot_lem n _ _ col s2 f v2) λ s3 v3.
        then-Draws _ _ (plot_lem n _ _ col s3 f v3) λ s4 v4.
          then-Draws _ _ (plot_lem n _ _ col s4 f v4) λ s5 v5.
            then-Draws _ _ (plot_lem n _ _ col s5 f v5) λ s6 v6.
              then-Draws _ _ (plot_lem n _ _ col s6 f v6) λ s7 v7. plot_lem n _ _ col s7 f v7

-- `y` grows in each round and `x` does not.
circle_loop_lem :
    (fuel : ℕ) (n : ScreenNumber) (x0 y0 x y radius_error : ℤ) (col : Color) (screens : List Screen)
    → is_any_screen n ≡ false
    → pos_part x + neg_part y + 1 ≤ fuel + pos_part y + neg_part x
    → IsCube screens
    → Draws (circle_loop fuel n x0 y0 x y radius_error col screens)
unfolding circle_loop
circle_loop_lem zero n x0 y0 x y radius_error col screens f l v =
    let e : leb_ℤ y x ≡ false = ground (arith, l) in rw (e, circle_loop) (Draws-returns screens v)
circle_loop_lem (suc fuel) n x0 y0 x y radius_error col screens f l v =
    elim (Bool-cases (leb_ℤ y x)) [
      | inr e ↦ rw (e, circle_loop) (Draws-returns screens v)
      | inl e ↦
          rw (e, circle_loop)
            (then-Draws (circle_points n x0 y0 x y col screens) _
              (circle_points_lem n x0 y0 x y col screens f v)
              (λ drawn u. elim (Bool-cases (ltb_ℤ radius_error (pos 0))) [
                | inl g ↦ rw g (
                    circle_loop_lem fuel n x0 y0 x _ _ col drawn f
                      (omega (arith, l, +ℤ_parts y (pos 1))) u)
                | inr g ↦ rw g (
                    circle_loop_lem fuel n x0 y0 _ _ _ col drawn f
                      (omega (arith, l, +ℤ_parts y (pos 1), -ℤ_parts x (pos 1))) u)
              ]))
    ]

-- On a cube and a face of it, `drawCircle2D` ends, whatever the centre and the radius are, and leaves
-- a cube: the fuel of `radius + 1` rounds, or one for a negative radius, is enough.
pub draw_circle_2d_lem :
    (n : ScreenNumber) (x0 y0 radius : ℤ) (col : Color) (screens : List Screen)
    → is_any_screen n ≡ false
    → IsCube screens
    → Draws (draw_circle_2d n x0 y0 radius col screens)
unfolding draw_circle_2d
draw_circle_2d_lem n x0 y0 radius col screens f v =
    circle_loop_lem (pos_part radius + 1) n x0 y0 radius (pos 0) (pos 1 -ℤ radius) col screens f
      (omega arith) v

next_column :
    (x : ℤ) (k : ℕ)
    → IsWithin near x
    → pos_part x + suc k ≤ near + neg_part x
    → IsWithin near (x +ℤ pos 1) × (pos_part (x +ℤ pos 1) + k ≤ near + neg_part (x +ℤ pos 1))
unfolding ◌+ℤ◌
next_column (pos n) k w h = ground (arith, w, h)
next_column (negsuc n) k w h = ground (arith, w, h)

fill_loop_lem :
    (k : ℕ) (n : ScreenNumber) (x y0 y1 : ℤ) (col : Color) (screens : List Screen)
    → is_any_screen n ≡ false
    → IsWithin near x
    → pos_part x + k ≤ near + neg_part x
    → IsWithin near y0
    → IsWithin near y1
    → IsCube screens
    → Draws (fill_loop k n x y0 y1 col screens)
unfolding fill_loop
fill_loop_lem zero n x y0 y1 col screens f nx nk ny0 ny1 v = Draws-returns screens v
fill_loop_lem (suc k) n x y0 y1 col screens f nx nk ny0 ny1 v =
    let (within, rest) = next_column x k nx nk in
    then-Draws (draw_line_2d n x y0 x y1 col screens) _
      (draw_line_2d_lem n x y0 x y1 col screens f nx ny0 nx ny1 v)
      (λ drawn u. fill_loop_lem k n (x +ℤ pos 1) y0 y1 col drawn f within rest ny0 ny1 u)

pub draw_rect_2d_lem :
    (n : ScreenNumber) (x0 y0 x1 y1 : ℤ) (col : Color) (filled : Bool) (fill_color : Color)
    (screens : List Screen)
    → is_any_screen n ≡ false
    → IsWithin near x0
    → IsWithin near y0
    → IsWithin near x1
    → IsWithin near y1
    → IsCube screens
    → Draws (draw_rect_2d n x0 y0 x1 y1 col filled fill_color screens)
unfolding draw_rect_2d
draw_rect_2d_lem n x0 y0 x1 y1 col filled fill_color screens f nx0 ny0 nx1 ny1 v =
    then-Draws _ _ (filling filled) λ s0 v0.
      then-Draws _ _ (draw_line_2d_lem n x0 y0 x0 y1 col s0 f nx0 ny0 nx0 ny1 v0) λ s1 v1.
        then-Draws _ _ (draw_line_2d_lem n x0 y0 x1 y0 col s1 f nx0 ny0 nx1 ny0 v1) λ s2 v2.
          then-Draws _ _ (draw_line_2d_lem n x1 y1 x0 y1 col s2 f nx1 ny1 nx0 ny1 v2)
            λ s3 v3. draw_line_2d_lem n x1 y1 x1 y0 col s3 f nx1 ny1 nx1 ny0 v3
  where
    last_column :
        (d : ℤ)
        → pos_part d + neg_part x1 + pos_part x0 ≡ neg_part d + pos_part x1 + neg_part x0
        → pos_part x0 + pos_part d ≤ near + neg_part x0
    last_column (pos k) e = omega (arith, e, nx1)
    last_column (negsuc k) e = omega (arith, nx0)

    filling :
        (b : Bool)
        → Draws (
            if b
            then fill_loop (pos_part (x1 -ℤ x0)) n x0 y0 y1 fill_color screens
            else returns screens)
    filling true =
        fill_loop_lem _ n x0 y0 y1 fill_color screens f nx0
          (last_column (x1 -ℤ x0) (-ℤ_parts x1 x0)) ny0 ny1 v
    filling false = Draws-returns screens v

-- On a cube and a face of it, `drawRectCentered2D` ends, filled or not, and leaves a cube, if the
-- corners that it computes are within 2 ^ 27 of the origin.
pub draw_rect_centered_2d_lem :
    (n : ScreenNumber) (x0 y0 w h : ℤ) (col : Color) (filled : Bool) (fill_color : Color)
    (screens : List Screen)
    → is_any_screen n ≡ false
    → IsWithin near (x0 -ℤ half w)
    → IsWithin near (y0 -ℤ half h)
    → IsWithin near (x0 +ℤ half w)
    → IsWithin near (y0 +ℤ half w)
    → IsCube screens
    → Draws (draw_rect_centered_2d n x0 y0 w h col filled fill_color screens)
unfolding draw_rect_centered_2d
draw_rect_centered_2d_lem n x0 y0 w h col filled fill_color screens f nx0 ny0 nx1 ny1 v =
    draw_rect_2d_lem n (x0 -ℤ half w) (y0 -ℤ half h) (x0 +ℤ half w) (y0 +ℤ half w) col filled
      fill_color screens f nx0 ny0 nx1 ny1 v

pub draw_bitmap_1bpp_lem :
    (n : ScreenNumber) (x y : ℤ) (col : Color) (bitmap : Bitmap1bpp) (screens : List Screen)
    → is_any_screen n ≡ false
    → IsCube screens
    → Draws (draw_bitmap_1bpp n x y col bitmap screens)
unfolding draw_bitmap_1bpp
draw_bitmap_1bpp_lem n x y col [] screens f v = Draws-returns screens v
draw_bitmap_1bpp_lem n x y col ((i, j) ∷ bitmap) screens f v =
    then-Draws (plot n (x +ℤ pos i) (y +ℤ pos j) col screens) _ (plot_lem n _ _ col screens f v)
      (λ drawn u. draw_bitmap_1bpp_lem n x y col bitmap drawn f u)
