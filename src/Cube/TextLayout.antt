-- ===== src/Cube/TextLayout.antt =====
-- The points of a text lie on the face.
use matrixserver.Common.{
  ℕ, ◌+◌, ◌-◌, ◌*◌, ◌/◌, ◌≤◌, ◌≡◌, ap, false, List, [], ◌∷◌, arith, ◌⊎◌, inl, inr, Bool-cases,
  length,
}
use matrixserver.Common.Sequences.{All, All-append}
use matrixserver.Common.Int.{ℤ, pos, negsuc, ◌+ℤ◌, ◌-ℤ◌, ◌≤ℤ◌, +ℤ_parts, -ℤ_parts}
use matrixserver.Graphics.Color.{Color}
use matrixserver.Graphics.Screen.{Screen}
use matrixserver.Cube.Points.{ScreenNumber, is_any_screen}
use matrixserver.Cube.Plane.{half, Bitmap1bpp}
use matrixserver.Cube.Lines.{IsCube}
use matrixserver.Cube.PlaneLines.{Draws}
use matrixserver.Cube.Font.{centered, right_aligned, get_string_width, get_bitmap_from_char}
use matrixserver.Cube.Text.{
  cube_size, text_start_x, text_start_y, wraps, next_x, next_y, is_full, draw_text, bitmap_points,
  points_from, text_points, plot_all,
}
use matrixserver.Cube.FontCells.{InCell, get_bitmap_from_char_lem}
use matrixserver.Cube.TextPoints.{text_loop-plot_all, plot_all_lem}

-- A position on a face of the cube.
abbrev pub OnFace : ℤ × ℤ → Type 0
OnFace p = ((pos 0 ≤ℤ p.0) × (p.0 ≤ℤ pos 63)) × (pos 0 ≤ℤ p.1) × (p.1 ≤ℤ pos 63)

bitmap_points-OnFace :
    (x y : ℤ) (bitmap : Bitmap1bpp)
    → pos 0 ≤ℤ x
    → x ≤ℤ pos 60
    → pos 0 ≤ℤ y
    → y ≤ℤ pos 58
    → All InCell bitmap
    → All OnFace (bitmap_points x y bitmap)
unfolding bitmap_points
bitmap_points-OnFace x y [] a b c d h = tt
bitmap_points-OnFace x y ((i, j) ∷ bitmap) a b c d h =
    let sx = +ℤ_parts x (pos i) in
    let sy = +ℤ_parts y (pos j) in
    (
      (
        (omega (arith, sx, a, b, h.0), omega (arith, sx, a, b, h.0)),
        omega (arith, sy, c, d, h.0),
        omega (arith, sy, c, d, h.0),
      ),
      bitmap_points-OnFace x y bitmap a b c d h.1,
    )

-- The rest of the text has room: its lines start on the face, or it ends on this line.
abbrev HasRoom : ℤ → ℤ → List ℕ → Type 0
HasRoom left x text =
    ((pos 0 ≤ℤ left) × (left ≤ℤ pos 60) × (x ≤ℤ pos 60)) ⊎ (x +ℤ pos (length text * 4) ≤ℤ pos 64)

HasRoom-narrow : (left x : ℤ) (k : ℕ) (text : List ℕ) → HasRoom left x (k ∷ text) → x ≤ℤ pos 60
HasRoom-narrow left x k text (inl h) = h.2
HasRoom-narrow left x k text (inr h) = omega (arith, h, +ℤ_parts x (pos (length (k ∷ text) * 4)))

HasRoom-next :
    (left x : ℤ) (k d : ℕ) (text : List ℕ)
    → pos 0 ≤ℤ x
    → HasRoom left x (k ∷ d ∷ text)
    → (pos 0 ≤ℤ next_x left x) × HasRoom left (next_x left x) (d ∷ text)
unfolding next_x wraps
HasRoom-next left x k d text a (inl h) = elim (Bool-cases (wraps x)) [
  | inl e ↦ rw e (h.0, inl (h.0, h.1, h.1))
  | inr e ↦
      let sum = +ℤ_parts x (pos 4) in
      rw e
        (omega (arith, a, sum), inl (h.0, h.1, ground (arith, e, sum, -ℤ_parts (pos 64) (pos 4))))
]
HasRoom-next left x k d text a (inr h) =
    let sum = +ℤ_parts x (pos (length (k ∷ d ∷ text) * 4)) in
    let next = +ℤ_parts x (pos 4) in
    let line : wraps x ≡ false = ground (arith, h, sum, next, -ℤ_parts (pos 64) (pos 4)) in
    rw line (
      omega (arith, a, next),
      inr (omega (arith, h, sum, next, +ℤ_parts (x +ℤ pos 4) (pos (length (d ∷ text) * 4)))),
    )

next_y_room :
    (x y : ℤ)
    → pos 0 ≤ℤ y
    → is_full (next_y x y) ≡ false
    → (pos 0 ≤ℤ next_y x y) × (next_y x y ≤ℤ pos 58)
unfolding next_y is_full
next_y_room x y c e =
    let end = -ℤ_parts (pos 64) (pos 6) in
    elim (Bool-cases (wraps x)) [
      | inl f ↦ ground (arith, e, f, c, end, +ℤ_parts y (pos 6))
      | inr f ↦ ground (arith, e, f, c, end)
    ]

points_from-OnFace :
    (left : ℤ) (text : List ℕ) (x y : ℤ)
    → pos 0 ≤ℤ x
    → HasRoom left x text
    → pos 0 ≤ℤ y
    → y ≤ℤ pos 58
    → All OnFace (points_from left x y text)
unfolding points_from
points_from-OnFace left [] x y a r c d = tt
points_from-OnFace left (k ∷ []) x y a r c d =
    All-append OnFace (bitmap_points x y (get_bitmap_from_char k)) _
      (bitmap_points-OnFace x y _ a (HasRoom-narrow left x k [] r) c d (get_bitmap_from_char_lem k))
      (elim (Bool-cases (is_full (next_y x y))) [ inl e ↦ rw e tt | inr e ↦ rw e tt ])
points_from-OnFace left (k ∷ l ∷ text) x y a r c d =
    All-append OnFace (bitmap_points x y (get_bitmap_from_char k)) _
      (bitmap_points-OnFace x y _ a (HasRoom-narrow left x k (l ∷ text) r) c d
        (get_bitmap_from_char_lem k))
      (elim (Bool-cases (is_full (next_y x y))) [
        | inl e ↦ rw e tt
        | inr e ↦
            let (right_of, room) = HasRoom-next left x k l text a r in
            let (below, above) = next_y_room x y c e in
            rw e (points_from-OnFace left (l ∷ text) _ _ right_of room below above)
      ])

-- The caller gives a place for the first character on the face, or a line that fits is aligned.
pub data StartsInside (x : ℤ) (text : List ℕ) : Type 0 where
  at_column : pos 0 ≤ℤ x → x ≤ℤ pos 60 → StartsInside x text
  in_centre : x ≡ centered → length text ≤ 16 → StartsInside x text
  at_right : x ≡ right_aligned → length text ≤ 16 → StartsInside x text

right_start : (k : ℕ) → k ≤ 16 → cube_size -ℤ pos (k * 4) ≡ pos (64 - k * 4)
unfolding ◌-ℤ◌
right_start k l = ground (arith, l)

centre_start :
    (k : ℕ) → k ≤ 16 → (m : ℕ) × (half (cube_size -ℤ pos (k * 4)) ≡ pos m) × (m + k * 4 ≤ 64)
centre_start k l = ((64 - k * 4) / 2, ap half (right_start k l), omega (arith, l))

text_start_x_lem :
    (x : ℤ) (text : List ℕ)
    → StartsInside x text
    → (pos 0 ≤ℤ text_start_x x text) × HasRoom x (text_start_x x text) text
unfolding text_start_x get_string_width
text_start_x_lem (pos m) text (at_column a b) = (omega arith, inl (a, b, b))
text_start_x_lem (negsuc m) text (at_column a b) = absurd (omega (arith, a))
text_start_x_lem x text (in_centre e l) =
    let (m, starts, fit) = centre_start (length text) l in
    rw e
      (rw starts (omega arith, inr (omega (arith, fit, +ℤ_parts (pos m) (pos (length text * 4))))))
text_start_x_lem x text (at_right e l) =
    let sum = +ℤ_parts (pos (64 - length text * 4)) (pos (length text * 4)) in
    rw e (rw (right_start (length text) l) (omega arith, inr (omega (arith, l, sum))))

abbrev pub StartsBelow : ℤ → Type 0
StartsBelow y = ((pos 0 ≤ℤ y) × (y ≤ℤ pos 58)) ⊎ (y ≡ centered)

text_start_y_lem : (y : ℤ) → StartsBelow y → (pos 0 ≤ℤ text_start_y y) × (text_start_y y ≤ℤ pos 58)
unfolding text_start_y ◌-ℤ◌
text_start_y_lem y (inl (a, b)) = ground (arith, a, b)
text_start_y_lem y (inr e) = rw e (omega arith, omega arith)

-- On a cube and a face of it, `drawText` with a first character that starts at a place of the face,
-- or with at most 16 characters that are centred or at the right, succeeds: it plots the points of
-- its characters in order, leaves a cube, and every one of the points lies on the face.
pub draw_text_lem :
    (n : ScreenNumber) (x y : ℤ) (col : Color) (text : List ℕ) (screens : List Screen)
    → is_any_screen n ≡ false
    → IsCube screens
    → StartsInside x text
    → StartsBelow y
    → Draws (draw_text n x y col text screens)
      × (draw_text n x y col text screens ≡ plot_all n col (text_points x y text) screens)
      × All OnFace (text_points x y text)
unfolding draw_text text_points
draw_text_lem n x y col text screens f v a b =
    let same = text_loop-plot_all n col x (text_start_x x text) (text_start_y y) text screens in
    let (right_of, room) = text_start_x_lem x text a in
    let (below, above) = text_start_y_lem y b in
    (
      rw same (
          plot_all_lem n col (points_from x (text_start_x x text) (text_start_y y) text) screens f
            v),
      same,
      points_from-OnFace x text (text_start_x x text) (text_start_y y) right_of room below above,
    )
