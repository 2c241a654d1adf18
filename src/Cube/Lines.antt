-- ===== src/Cube/Lines.antt =====
-- Drawing on a cube of six valid panels never fails.
use matrixserver.Common.{
  ℕ, zero, suc, ◌≤◌, ◌<◌, ◌≡◌, refl, sym, ap, ◌∙◌, Bool, true, false, List, [], ◌∷◌, Option, some,
  none, ◌&&◌, if◌then◌else◌, get_elem?, arith, length, subst,
}
use matrixserver.Common.Sequences.{set_at, All}
use matrixserver.Common.Int.{ℤ, pos, ◌+ℤ◌, ◌-ℤ◌, leb_ℤ}
use matrixserver.Graphics.Color.{Color}
use matrixserver.Graphics.Screen.{Screen, set_pixel}
use matrixserver.Graphics.Pixels.{IsValid, get_elem?-some}
use matrixserver.Graphics.Draws.{set_pixel_lem}
use matrixserver.Cube.Points.{Point, is_zero, is_max}
use matrixserver.Cube.Drawing.{
  set_pixel_3d, draw_on, draw_face, line_loop, draw_line_3d, increment, magnitude,
}

-- Six panels or more, each valid.
abbrev pub IsCube : List Screen → Type 0
IsCube screens = (6 ≤ length screens) × All IsValid screens

All-get :
    (xs : List Screen) (i : ℕ) (s : Screen) → All IsValid xs → get_elem? xs i ≡ some s → IsValid s
All-get [] i s h e = absurd (ground (arith, e))
All-get (x ∷ xs) zero s h e = subst (λ (o : Option Screen). HoldsOf o) e h.0
  where
    HoldsOf : Option Screen → Type 0
    HoldsOf none = Unit
    HoldsOf (some t) = IsValid t
All-get (x ∷ xs) (suc i) s h e = All-get xs i s h.1 e

set_at-All :
    (xs : List Screen) (i : ℕ) (s : Screen)
    → i < length xs
    → All IsValid xs
    → IsValid s
    → (ys : List Screen) × (set_at xs i s ≡ some ys) × All IsValid ys × (length ys ≡ length xs)
set_at-All [] i s l h v = absurd (omega arith)
set_at-All (x ∷ xs) zero s l h v = (s ∷ xs, refl, (v, h.1), refl)
set_at-All (x ∷ xs) (suc i) s l h v =
    let (ys, e, g, n) = set_at-All xs i s (omega arith) h.1 v in
    (x ∷ ys, rw e refl, (h.0, g), ap suc n)

drawn :
    (i : ℕ) (x y : ℤ) (col : Color) (add_mode : Bool) (screens : List Screen) (s t : Screen)
    → get_elem? screens i ≡ some s
    → set_pixel s x y col add_mode ≡ some t
    → draw_on i x y col add_mode screens ≡ set_at screens i t
unfolding draw_on
drawn i x y col add_mode screens s t e f = rw (e, draw_on) (rw (f, draw_on) refl)

draw_on_lem :
    (i : ℕ) (x y : ℤ) (col : Color) (add_mode : Bool) (screens : List Screen)
    → i < 6
    → IsCube screens
    → (after : List Screen) × (draw_on i x y col add_mode screens ≡ some after) × IsCube after
draw_on_lem i x y col add_mode screens l (six, h) =
    let (s, e) = get_elem?-some screens i (omega arith) in
    let (t, f, d) = set_pixel_lem s x y col add_mode (All-get screens i s h e) in
    let (ys, g, v, n) = set_at-All screens i t (omega arith) h d.2 in
    (ys, drawn i x y col add_mode screens s t e f ∙ g, (omega (arith, n), v))

-- The draw succeeds, with a cube.
unfoldable pub Succeeds : Option (List Screen) → Type 0
Succeeds o = (after : List Screen) × (o ≡ some after) × IsCube after

choose :
    (b : Bool) (o p : Option (List Screen))
    → Succeeds o
    → Succeeds p
    → Succeeds (if b then o else p)
choose true o p g h = g
choose false o p g h = h

draw_face_lem :
    (x y z : ℤ) (col : Color) (add_mode : Bool) (screens : List Screen)
    → IsCube screens
    → Succeeds (draw_face x y z col add_mode screens)
unfolding draw_face Succeeds
draw_face_lem x y z col add_mode screens v = choose (is_zero y) _ _ (on 0 _ _ (omega arith)) (
    choose (is_max x) _ _ (on 1 _ _ (omega arith)) (
      choose (is_max y) _ _ (on 2 _ _ (omega arith)) (
        choose (is_zero x) _ _ (on 3 _ _ (omega arith)) (
          choose (is_zero z) _ _ (on 4 _ _ (omega arith))
            (choose (is_max z) _ _ (on 5 _ _ (omega arith)) (screens, refl, v))))))
  where
    on : (i : ℕ) (a b : ℤ) → i < 6 → Succeeds (draw_on i a b col add_mode screens)
    on i a b l = draw_on_lem i a b col add_mode screens l v

-- A draw at any point, at any intensity.
pub set_pixel_3d_lem :
    (p : Point) (col : Color) (intensity : Option (ℕ → ℤ)) (add_mode : Bool) (screens : List Screen)
    → IsCube screens
    → Succeeds (set_pixel_3d p col intensity add_mode screens)
unfolding set_pixel_3d
set_pixel_3d_lem p col intensity add_mode screens v = draw_face_lem _ _ _ _ add_mode screens v

CubeOf : Option (List Screen) → Type 0
CubeOf none = Unit
CubeOf (some screens) = IsCube screens

continue :
    (first : Option (List Screen)) (rest : List Screen → Option (List Screen))
    → Succeeds first
    → ((next : List Screen) → IsCube next → Succeeds (rest next))
    → Succeeds (elim first [ none ↦ none | some next ↦ rest next ])
unfolding CubeOf Succeeds
continue none rest (after, e, v) k = absurd (ground (arith, e))
continue (some next) rest (after, e, v) k = k next (subst CubeOf (sym e) v)

line_loop_lem :
    (n : ℕ) (point lead first second : Point) (double double_1 double_2 err_1 err_2 : ℤ)
    (col : Color) (screens : List Screen)
    → IsCube screens
    → Succeeds
        (line_loop n point lead first second double double_1 double_2 err_1 err_2 col screens)
unfolding line_loop
line_loop_lem zero point lead first second double double_1 double_2 err_1 err_2 col screens v =
    set_pixel_3d_lem point col none false screens v
line_loop_lem (suc n) point lead first second double double_1 double_2 err_1 err_2 col screens v =
    continue (set_pixel_3d point col none false screens) _
      (set_pixel_3d_lem point col none false screens v)
      (λ next w. line_loop_lem n _ lead first second double double_1 double_2 _ _ col next w)

-- On a cube, that is six valid panels or more, drawing a line between any two points succeeds and
-- leaves a cube.
pub draw_line_3d_lem :
    (start end : Point) (col : Color) (screens : List Screen)
    → IsCube screens
    → Succeeds (draw_line_3d start end col screens)
unfolding draw_line_3d
draw_line_3d_lem start end col screens v =
    let dx = end.x -ℤ start.x in
    let dy = end.y -ℤ start.y in
    let dz = end.z -ℤ start.z in
    let along_x : Point = record { x = increment dx; y = pos 0; z = pos 0 } in
    let along_y : Point = record { x = pos 0; y = increment dy; z = pos 0 } in
    let along_z : Point = record { x = pos 0; y = pos 0; z = increment dz } in
    let l = pos (magnitude dx) in
    let m = pos (magnitude dy) in
    let n = pos (magnitude dz) in
    choose (leb_ℤ m l && leb_ℤ n l) _ _
      (loop (magnitude dx) along_x along_y along_z (l +ℤ l) (m +ℤ m) (n +ℤ n) (m +ℤ m -ℤ l)
        (n +ℤ n -ℤ l))
      (choose (leb_ℤ l m && leb_ℤ n m) _ _
        (loop (magnitude dy) along_y along_x along_z (m +ℤ m) (l +ℤ l) (n +ℤ n) (l +ℤ l -ℤ m)
          (n +ℤ n -ℤ m))
        (loop (magnitude dz) along_z along_y along_x (n +ℤ n) (m +ℤ m) (l +ℤ l) (m +ℤ m -ℤ n)
          (l +ℤ l -ℤ n)))
  where
    loop :
        (n : ℕ) (lead first second : Point) (double double_1 double_2 err_1 err_2 : ℤ)
        → Succeeds
            (line_loop n start lead first second double double_1 double_2 err_1 err_2 col screens)
    loop n lead first second double double_1 double_2 err_1 err_2 =
        line_loop_lem n start lead first second double double_1 double_2 err_1 err_2 col screens v
