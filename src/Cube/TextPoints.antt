-- ===== src/Cube/TextPoints.antt =====
-- A text is drawn as the points of its characters, in order.
use matrixserver.Common.{ℕ, ◌≡◌, refl, sym, ap, ◌∙◌, Bool, true, false, List, [], ◌∷◌, ◌++◌}
use matrixserver.Common.Int.{ℤ, pos, ◌+ℤ◌}
use matrixserver.Cobs.Defs.{Outcome, returns, undefined, stuck, ◌>>=ₒ◌}
use matrixserver.Graphics.Color.{Color}
use matrixserver.Graphics.Screen.{Screen}
use matrixserver.Cube.Points.{ScreenNumber, is_any_screen}
use matrixserver.Cube.Plane.{plot, Bitmap1bpp, draw_bitmap_1bpp}
use matrixserver.Cube.Lines.{IsCube}
use matrixserver.Cube.PlaneLines.{Draws, Draws-returns, then-Draws, plot_lem}
use matrixserver.Cube.Font.{get_bitmap_from_char}
use matrixserver.Cube.Text.{
  next_x, next_y, is_full, text_loop, bitmap_points, points_from, plot_all,
}

bind_cong :
    (o : Outcome (List Screen)) (f g : List Screen → Outcome (List Screen))
    → ((s : List Screen) → f s ≡ g s)
    → (o >>=ₒ f) ≡ (o >>=ₒ g)
bind_cong (returns s) f g h = h s
bind_cong undefined f g h = refl
bind_cong stuck f g h = refl

ap_bind :
    {o p : Outcome (List Screen)}
    → o ≡ p
    → (f : List Screen → Outcome (List Screen)) → (o >>=ₒ f) ≡ (p >>=ₒ f)
ap_bind e f = ap (λ o. o >>=ₒ f) e

bind_assoc :
    (o : Outcome (List Screen)) (f g : List Screen → Outcome (List Screen))
    → (o >>=ₒ f >>=ₒ g) ≡ (o >>=ₒ λ s. f s >>=ₒ g)
bind_assoc (returns s) f g = refl
bind_assoc undefined f g = refl
bind_assoc stuck f g = refl

module _ (n : ScreenNumber) (col : Color) where
  plot_all-append :
      (ps qs : List (ℤ × ℤ)) (screens : List Screen)
      → plot_all n col (ps ++ qs) screens
        ≡ (plot_all n col ps screens >>=ₒ λ drawn. plot_all n col qs drawn)
  unfolding plot_all
  plot_all-append [] qs screens = refl
  plot_all-append ((x, y) ∷ ps) qs screens =
      bind_cong (plot n x y col screens) _ _ (λ drawn. plot_all-append ps qs drawn)
      ∙ sym (bind_assoc (plot n x y col screens) _ _)

  draw_bitmap_1bpp-plot_all :
      (x y : ℤ) (bitmap : Bitmap1bpp) (screens : List Screen)
      → draw_bitmap_1bpp n x y col bitmap screens
        ≡ plot_all n col (bitmap_points x y bitmap) screens
  unfolding plot_all bitmap_points draw_bitmap_1bpp
  draw_bitmap_1bpp-plot_all x y [] screens = refl
  draw_bitmap_1bpp-plot_all x y ((i, j) ∷ bitmap) screens =
      bind_cong (plot n (x +ℤ pos i) (y +ℤ pos j) col screens) _ _
        (λ drawn. draw_bitmap_1bpp-plot_all x y bitmap drawn)

  stop_or :
      (full : Bool) (o : Outcome (List Screen)) (points : List (ℤ × ℤ)) (drawn : List Screen)
      → o ≡ plot_all n col points drawn
      → elim full [ true ↦ returns drawn | false ↦ o ]
        ≡ plot_all n col (elim full [ true ↦ [] | false ↦ points ]) drawn
  unfolding plot_all
  stop_or true o points drawn e = refl
  stop_or false o points drawn e = e

  pub text_loop-plot_all :
      (left x y : ℤ) (text : List ℕ) (screens : List Screen)
      → text_loop n left x y col text screens ≡ plot_all n col (points_from left x y text) screens
  unfolding text_loop points_from plot_all
  text_loop-plot_all left x y [] screens = refl
  text_loop-plot_all left x y (c ∷ text) screens =
      ap_bind (draw_bitmap_1bpp-plot_all x y (get_bitmap_from_char c) screens) _
      ∙ bind_cong (plot_all n col (bitmap_points x y (get_bitmap_from_char c)) screens) _ _
          (λ drawn.
            stop_or (is_full (next_y x y)) _ _ drawn
              (text_loop-plot_all left (next_x left x) (next_y x y) text drawn))
      ∙ sym (plot_all-append (bitmap_points x y (get_bitmap_from_char c)) _ screens)

pub plot_all_lem :
    (n : ScreenNumber) (col : Color) (points : List (ℤ × ℤ)) (screens : List Screen)
    → is_any_screen n ≡ false
    → IsCube screens
    → Draws (plot_all n col points screens)
unfolding plot_all
plot_all_lem n col [] screens f v = Draws-returns screens v
plot_all_lem n col ((x, y) ∷ points) screens f v =
    then-Draws (plot n x y col screens) _ (plot_lem n x y col screens f v)
      (λ drawn u. plot_all_lem n col points drawn f u)
