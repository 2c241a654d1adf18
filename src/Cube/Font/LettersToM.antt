-- ===== src/Cube/Font/LettersToM.antt =====
-- application/Font6px.h: the letters to M, as the points that are set.
use matrixserver.Common.{[], ◌∷◌}
use matrixserver.Cube.Plane.{Bitmap1bpp}

abbrev pub char_a : Bitmap1bpp
char_a =
    (1, 0) ∷ (0, 1) ∷ (2, 1) ∷ (0, 2) ∷ (2, 2) ∷ (0, 3) ∷ (2, 3) ∷ (0, 4) ∷ (2, 4) ∷ (1, 2) ∷ []

abbrev pub char_b : Bitmap1bpp
char_b =
    (0, 0)
    ∷ (1, 0)
    ∷ (0, 1)
    ∷ (2, 1)
    ∷ (0, 2)
    ∷ (2, 2)
    ∷ (0, 3)
    ∷ (2, 3)
    ∷ (0, 4)
    ∷ (1, 4)
    ∷ (1, 2)
    ∷ []

abbrev pub char_c : Bitmap1bpp
char_c = (1, 0) ∷ (2, 0) ∷ (0, 1) ∷ (0, 2) ∷ (0, 3) ∷ (1, 4) ∷ (2, 4) ∷ []

abbrev pub char_d : Bitmap1bpp
char_d =
    (0, 0) ∷ (1, 0) ∷ (0, 1) ∷ (2, 1) ∷ (0, 2) ∷ (2, 2) ∷ (0, 3) ∷ (2, 3) ∷ (0, 4) ∷ (1, 4) ∷ []

abbrev pub char_e : Bitmap1bpp
char_e =
    (0, 0)
    ∷ (1, 0)
    ∷ (2, 0)
    ∷ (0, 1)
    ∷ (0, 2)
    ∷ (2, 2)
    ∷ (0, 3)
    ∷ (0, 4)
    ∷ (1, 4)
    ∷ (2, 4)
    ∷ (1, 2)
    ∷ []

abbrev pub char_f : Bitmap1bpp
char_f = (0, 0) ∷ (1, 0) ∷ (2, 0) ∷ (0, 1) ∷ (0, 2) ∷ (2, 2) ∷ (0, 3) ∷ (0, 4) ∷ (1, 2) ∷ []

abbrev pub char_g : Bitmap1bpp
char_g =
    (1, 0) ∷ (2, 0) ∷ (0, 1) ∷ (1, 2) ∷ (0, 2) ∷ (2, 2) ∷ (0, 3) ∷ (2, 3) ∷ (1, 4) ∷ (2, 4) ∷ []

abbrev pub char_h : Bitmap1bpp
char_h =
    (0, 0)
    ∷ (2, 0)
    ∷ (0, 1)
    ∷ (2, 1)
    ∷ (0, 2)
    ∷ (2, 2)
    ∷ (0, 3)
    ∷ (2, 3)
    ∷ (0, 4)
    ∷ (2, 4)
    ∷ (1, 2)
    ∷ []

abbrev pub char_i : Bitmap1bpp
char_i = (0, 0) ∷ (2, 0) ∷ (1, 0) ∷ (1, 1) ∷ (1, 2) ∷ (1, 3) ∷ (1, 4) ∷ (0, 4) ∷ (2, 4) ∷ []

abbrev pub char_j : Bitmap1bpp
char_j = (2, 0) ∷ (2, 1) ∷ (2, 2) ∷ (2, 3) ∷ (1, 4) ∷ (0, 4) ∷ []

abbrev pub char_k : Bitmap1bpp
char_k =
    (0, 0) ∷ (2, 0) ∷ (0, 1) ∷ (2, 1) ∷ (0, 2) ∷ (0, 3) ∷ (2, 3) ∷ (0, 4) ∷ (2, 4) ∷ (1, 2) ∷ []

abbrev pub char_l : Bitmap1bpp
char_l = (0, 0) ∷ (0, 1) ∷ (0, 2) ∷ (0, 3) ∷ (0, 4) ∷ (1, 4) ∷ (2, 4) ∷ []

abbrev pub char_m : Bitmap1bpp
char_m =
    (1, 1)
    ∷ (0, 0)
    ∷ (2, 0)
    ∷ (0, 1)
    ∷ (2, 1)
    ∷ (0, 2)
    ∷ (2, 2)
    ∷ (0, 3)
    ∷ (2, 3)
    ∷ (0, 4)
    ∷ (2, 4)
    ∷ (1, 2)
    ∷ []
