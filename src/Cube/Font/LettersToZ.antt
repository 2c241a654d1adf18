-- ===== src/Cube/Font/LettersToZ.antt =====
-- application/Font6px.h: the letters from N, as the points that are set.
use matrixserver.Common.{[], ◌∷◌}
use matrixserver.Cube.Plane.{Bitmap1bpp}

abbrev pub char_n : Bitmap1bpp
char_n =
    (1, 1)
    ∷ (1, 3)
    ∷ (0, 0)
    ∷ (2, 0)
    ∷ (0, 1)
    ∷ (2, 1)
    ∷ (0, 2)
    ∷ (2, 2)
    ∷ (0, 3)
    ∷ (2, 3)
    ∷ (0, 4)
    ∷ (2, 4)
    ∷ (1, 2)
    ∷ []

abbrev pub char_o : Bitmap1bpp
char_o = (1, 0) ∷ (0, 1) ∷ (2, 1) ∷ (0, 2) ∷ (2, 2) ∷ (0, 3) ∷ (2, 3) ∷ (1, 4) ∷ []

abbrev pub char_p : Bitmap1bpp
char_p = (0, 0) ∷ (1, 0) ∷ (0, 1) ∷ (2, 1) ∷ (0, 2) ∷ (0, 3) ∷ (0, 4) ∷ (1, 2) ∷ []

abbrev pub char_q : Bitmap1bpp
char_q =
    (1, 0) ∷ (0, 1) ∷ (2, 1) ∷ (0, 2) ∷ (2, 2) ∷ (0, 3) ∷ (2, 3) ∷ (1, 4) ∷ (2, 4) ∷ (1, 3) ∷ []

abbrev pub char_r : Bitmap1bpp
char_r =
    (0, 0)
    ∷ (1, 0)
    ∷ (0, 1)
    ∷ (2, 1)
    ∷ (0, 2)
    ∷ (0, 3)
    ∷ (0, 4)
    ∷ (1, 2)
    ∷ (1, 3)
    ∷ (2, 4)
    ∷ (2, 2)
    ∷ []

abbrev pub char_s : Bitmap1bpp
char_s = (1, 0) ∷ (2, 0) ∷ (0, 1) ∷ (1, 2) ∷ (2, 3) ∷ (0, 4) ∷ (1, 4) ∷ []

abbrev pub char_t : Bitmap1bpp
char_t = (0, 0) ∷ (2, 0) ∷ (1, 0) ∷ (1, 1) ∷ (1, 2) ∷ (1, 3) ∷ (1, 4) ∷ []

abbrev pub char_u : Bitmap1bpp
char_u =
    (0, 0) ∷ (2, 0) ∷ (0, 1) ∷ (2, 1) ∷ (0, 2) ∷ (2, 2) ∷ (0, 3) ∷ (2, 3) ∷ (1, 4) ∷ (2, 4) ∷ []

abbrev pub char_v : Bitmap1bpp
char_v = (0, 0) ∷ (2, 0) ∷ (0, 1) ∷ (2, 1) ∷ (0, 2) ∷ (2, 2) ∷ (1, 3) ∷ (1, 4) ∷ []

abbrev pub char_w : Bitmap1bpp
char_w =
    (0, 0)
    ∷ (2, 0)
    ∷ (0, 1)
    ∷ (2, 1)
    ∷ (0, 2)
    ∷ (2, 2)
    ∷ (0, 3)
    ∷ (2, 3)
    ∷ (0, 4)
    ∷ (2, 4)
    ∷ (1, 2)
    ∷ (1, 3)
    ∷ []

abbrev pub char_x : Bitmap1bpp
char_x =
    (0, 0) ∷ (2, 0) ∷ (0, 1) ∷ (2, 1) ∷ (0, 3) ∷ (2, 3) ∷ (0, 4) ∷ (2, 4) ∷ (1, 2) ∷ (1, 3) ∷ []

abbrev pub char_y : Bitmap1bpp
char_y = (0, 0) ∷ (2, 0) ∷ (0, 1) ∷ (2, 1) ∷ (1, 2) ∷ (1, 3) ∷ (1, 4) ∷ []

abbrev pub char_z : Bitmap1bpp
char_z = (0, 0) ∷ (1, 0) ∷ (2, 0) ∷ (0, 4) ∷ (1, 4) ∷ (2, 4) ∷ (2, 1) ∷ (1, 2) ∷ (0, 3) ∷ []
