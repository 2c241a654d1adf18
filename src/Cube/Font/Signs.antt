-- ===== src/Cube/Font/Signs.antt =====
-- application/Font6px.h: the signs, and the bitmap of any other character, as the points that are set.
use matrixserver.Common.{[], ◌∷◌}
use matrixserver.Cube.Plane.{Bitmap1bpp}

abbrev pub char_colon : Bitmap1bpp
char_colon = (1, 1) ∷ (1, 3) ∷ []

abbrev pub char_dot : Bitmap1bpp
char_dot = (1, 4) ∷ []

abbrev pub char_comma : Bitmap1bpp
char_comma = (1, 3) ∷ (0, 4) ∷ []

abbrev pub char_minus : Bitmap1bpp
char_minus = (0, 2) ∷ (1, 2) ∷ (2, 2) ∷ []

abbrev pub char_plus : Bitmap1bpp
char_plus = (1, 1) ∷ (0, 2) ∷ (1, 2) ∷ (2, 2) ∷ (1, 3) ∷ []

abbrev pub char_underscore : Bitmap1bpp
char_underscore = (0, 5) ∷ (1, 5) ∷ (2, 5) ∷ []

abbrev pub char_exclamation : Bitmap1bpp
char_exclamation = (1, 0) ∷ (1, 1) ∷ (1, 2) ∷ (1, 4) ∷ []

abbrev pub char_question : Bitmap1bpp
char_question = (0, 0) ∷ (1, 0) ∷ (2, 0) ∷ (2, 1) ∷ (1, 2) ∷ (1, 4) ∷ []

abbrev pub char_matrix : Bitmap1bpp
char_matrix =
    (0, 0)
    ∷ (2, 0)
    ∷ (1, 1)
    ∷ (3, 1)
    ∷ (0, 2)
    ∷ (2, 2)
    ∷ (1, 3)
    ∷ (3, 3)
    ∷ (0, 4)
    ∷ (2, 4)
    ∷ (1, 5)
    ∷ (3, 5)
    ∷ []
