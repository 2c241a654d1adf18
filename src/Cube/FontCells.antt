-- ===== src/Cube/FontCells.antt =====
-- Every character of application/Font6px.h is drawn inside its cell.
use matrixserver.Common.{
  ℕ, ◌<◌, ◌≡◌, refl, Bool, true, List, [], ◌∷◌, arith, ◌&&◌, ltb, inl, inr, Bool-cases, ltb→lt,
}
use matrixserver.Common.Sequences.{All}
use matrixserver.Cube.Plane.{Bitmap1bpp}
use matrixserver.Cube.Font.{
  font_width, font_height, bitmap_cases, is_label, bitmap_of, get_bitmap_from_char,
}
use matrixserver.Cube.Font.Signs.{char_matrix}

-- Every point of the bitmap lies in a cell four wide and six high.
abbrev pub InCell : ℕ × ℕ → Type 0
InCell p = (p.0 < font_width) × (p.1 < font_height)

fits : Bitmap1bpp → Bool
fits [] = true
fits ((i, j) ∷ bitmap) = ltb i font_width && ltb j font_height && fits bitmap

all_fit : List (List ℕ × Bitmap1bpp) → Bool
all_fit [] = true
all_fit ((labels, bitmap) ∷ rest) = fits bitmap && all_fit rest

and_true : (a b : Bool) → (a && b) ≡ true → (a ≡ true) × (b ≡ true)
and_true a b e = ground (arith, e)

fits-InCell : (bitmap : Bitmap1bpp) → fits bitmap ≡ true → All InCell bitmap
unfolding fits
fits-InCell [] e = tt
fits-InCell ((i, j) ∷ bitmap) e =
    let (both, more) = and_true (ltb i font_width && ltb j font_height) (fits bitmap) e in
    let (wide, high) = and_true (ltb i font_width) (ltb j font_height) both in
    ((ltb→lt i font_width wide, ltb→lt j font_height high), fits-InCell bitmap more)

char_matrix-fits : fits char_matrix ≡ true
unfolding fits
char_matrix-fits = refl

bitmap_of_fits :
    (c : ℕ) (cases : List (List ℕ × Bitmap1bpp))
    → all_fit cases ≡ true
    → All InCell (bitmap_of c cases)
unfolding bitmap_of all_fit
bitmap_of_fits c [] e = fits-InCell char_matrix char_matrix-fits
bitmap_of_fits c ((labels, bitmap) ∷ rest) e =
    let (one, more) = and_true (fits bitmap) (all_fit rest) e in
    elim (Bool-cases (is_label c labels)) [
      | inl f ↦ rw f (fits-InCell bitmap one)
      | inr f ↦ rw f (bitmap_of_fits c rest more)
    ]

all_cases_fit : all_fit bitmap_cases ≡ true
unfolding all_fit bitmap_cases fits
all_cases_fit = refl

pub get_bitmap_from_char_lem : (c : ℕ) → All InCell (get_bitmap_from_char c)
unfolding get_bitmap_from_char
get_bitmap_from_char_lem c = bitmap_of_fits c bitmap_cases all_cases_fit
