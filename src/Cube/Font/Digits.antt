-- ===== src/Cube/Font/Digits.antt =====
-- application/Font6px.h: the digits, as the points that are set.
use matrixserver.Common.{[], ◌∷◌}
use matrixserver.Cube.Plane.{Bitmap1bpp}

abbrev pub char_0 : Bitmap1bpp
char_0 =
    (0, 0)
    ∷ (1, 0)
    ∷ (2, 0)
    ∷ (0, 1)
    ∷ (2, 1)
    ∷ (0, 2)
    ∷ (2, 2)
    ∷ (0, 3)
    ∷ (2, 3)
    ∷ (0, 4)
    ∷ (1, 4)
    ∷ (2, 4)
    ∷ []

abbrev pub char_1 : Bitmap1bpp
char_1 = (1, 0) ∷ (1, 1) ∷ (1, 2) ∷ (1, 3) ∷ (1, 4) ∷ []

abbrev pub char_2 : Bitmap1bpp
char_2 =
    (0, 0)
    ∷ (1, 0)
    ∷ (2, 0)
    ∷ (2, 1)
    ∷ (2, 2)
    ∷ (1, 2)
    ∷ (0, 2)
    ∷ (0, 3)
    ∷ (0, 4)
    ∷ (1, 4)
    ∷ (2, 4)
    ∷ []

abbrev pub char_3 : Bitmap1bpp
char_3 =
    (0, 0) ∷ (1, 0) ∷ (2, 0) ∷ (2, 1) ∷ (2, 2) ∷ (1, 2) ∷ (2, 3) ∷ (0, 4) ∷ (1, 4) ∷ (2, 4) ∷ []

abbrev pub char_4 : Bitmap1bpp
char_4 = (0, 0) ∷ (0, 1) ∷ (0, 2) ∷ (1, 2) ∷ (2, 0) ∷ (2, 1) ∷ (2, 2) ∷ (2, 3) ∷ (2, 4) ∷ []

abbrev pub char_5 : Bitmap1bpp
char_5 =
    (0, 0)
    ∷ (1, 0)
    ∷ (2, 0)
    ∷ (0, 1)
    ∷ (2, 2)
    ∷ (1, 2)
    ∷ (0, 2)
    ∷ (2, 3)
    ∷ (0, 4)
    ∷ (1, 4)
    ∷ (2, 4)
    ∷ []

abbrev pub char_6 : Bitmap1bpp
char_6 =
    (0, 0)
    ∷ (1, 0)
    ∷ (2, 0)
    ∷ (0, 1)
    ∷ (1, 2)
    ∷ (0, 2)
    ∷ (2, 2)
    ∷ (0, 3)
    ∷ (2, 3)
    ∷ (0, 4)
    ∷ (1, 4)
    ∷ (2, 4)
    ∷ []

abbrev pub char_7 : Bitmap1bpp
char_7 = (0, 0) ∷ (1, 0) ∷ (2, 0) ∷ (2, 1) ∷ (2, 2) ∷ (2, 3) ∷ (2, 4) ∷ []

abbrev pub char_8 : Bitmap1bpp
char_8 =
    (0, 0)
    ∷ (1, 0)
    ∷ (2, 0)
    ∷ (0, 1)
    ∷ (2, 1)
    ∷ (0, 2)
    ∷ (2, 2)
    ∷ (0, 3)
    ∷ (2, 3)
    ∷ (0, 4)
    ∷ (1, 4)
    ∷ (2, 4)
    ∷ (1, 2)
    ∷ []

abbrev pub char_9 : Bitmap1bpp
char_9 =
    (0, 0)
    ∷ (1, 0)
    ∷ (2, 0)
    ∷ (0, 1)
    ∷ (2, 1)
    ∷ (0, 2)
    ∷ (2, 2)
    ∷ (2, 3)
    ∷ (0, 4)
    ∷ (1, 4)
    ∷ (2, 4)
    ∷ (1, 2)
    ∷ []
