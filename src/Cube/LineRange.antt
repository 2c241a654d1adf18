-- ===== src/Cube/LineRange.antt =====
-- The numbers of `drawLine2D` stay within an `int`.
use matrixserver.Common.{
  ℕ, ◌+◌, ◌*◌, ◌≤◌, ◌≡◌, refl, true, false, Bool, arith, inl, inr, ◌&&◌, if◌then◌else◌,
}
use matrixserver.Common.Int.{
  ℤ, pos, negsuc, ◌+ℤ◌, ◌-ℤ◌, ◌*ℤ◌, ltb_ℤ, pos_part, neg_part, +ℤ_parts, -ℤ_parts,
}
use matrixserver.Cube.Plane.{LineState, line_step, step_fits, fits_int}
use matrixserver.Cube.Drawing.{magnitude}
use matrixserver.Cube.Bresenham.{IsAway, IsLeft, twice_parts, minus_parts}

-- Between `-n` and `n`.
abbrev pub IsWithin : ℕ → ℤ → Type 0
IsWithin n z = (pos_part z ≤ n) × (neg_part z ≤ n)

-- 2 ^ 27
abbrev pub near : ℕ
near = 134217728

pub record IsRanged (p q : ℕ) (err : ℤ) : Type 0 where
  pub high : pos_part err ≤ 2 * p + neg_part err
  pub low : neg_part err ≤ 2 * q + pos_part err

fits_within : (n : ℕ) (z : ℤ) → n ≤ 2147483647 → IsWithin n z → fits_int z ≡ true
fits_within n z l h = ground (arith, l, h)

pub IsRanged-start : (p q : ℕ) → IsRanged p q (pos p +ℤ (pos 0 -ℤ pos q))
IsRanged-start p q = record {
  high = omega (arith, +ℤ_parts (pos p) (pos 0 -ℤ pos q), minus_parts q);
  low = omega (arith, +ℤ_parts (pos p) (pos 0 -ℤ pos q), minus_parts q);
}

-- The error after the test along x, and after both.
IsRanged-step :
    (p q : ℕ) (err : ℤ) (over under : Bool)
    → ltb_ℤ (pos 0 -ℤ pos q) (pos 2 *ℤ err) ≡ over
    → ltb_ℤ (pos 2 *ℤ err) (pos p) ≡ under
    → IsRanged p q err
    → let err_x = if over then err +ℤ (pos 0 -ℤ pos q) else err in
      IsRanged p q (if under then err_x +ℤ pos p else err_x)
IsRanged-step p q err true true o u r =
    let two = twice_parts err in
    let dy = minus_parts q in
    let err_x = err +ℤ (pos 0 -ℤ pos q) in
    let x = +ℤ_parts err (pos 0 -ℤ pos q) in
    let y = +ℤ_parts err_x (pos p) in
    record { high = ground (arith, o, u, two, dy, x, y); low = ground (arith, o, u, two, dy, x, y) }
IsRanged-step p q err true false o u r =
    let two = twice_parts err in
    let dy = minus_parts q in
    let x = +ℤ_parts err (pos 0 -ℤ pos q) in
    record { high = ground (arith, r.high, two, dy, x); low = ground (arith, o, two, dy, x) }
IsRanged-step p q err false true o u r =
    let two = twice_parts err in
    let dy = minus_parts q in
    let y = +ℤ_parts err (pos p) in
    record { high = ground (arith, u, two, dy, y); low = ground (arith, r.low, two, dy, y) }
IsRanged-step p q err false false o u r = r

-- The error after the test along x.
IsRanged-half :
    (p q : ℕ) (err : ℤ) (over : Bool)
    → IsRanged p q err
    → let err_x = if over then err +ℤ (pos 0 -ℤ pos q) else err in
      (pos_part err_x ≤ 2 * p + neg_part err_x) × (neg_part err_x ≤ 3 * q + pos_part err_x)
IsRanged-half p q err true r =
    let dy = minus_parts q in
    let x = +ℤ_parts err (pos 0 -ℤ pos q) in
    (omega (arith, r.high, dy, x), omega (arith, r.low, dy, x))
IsRanged-half p q err false r = (r.high, omega (arith, r.low))

-- Two bounds on a difference bound the number.
bounded :
    (n : ℕ) (z : ℤ)
    → n ≤ 2147483647
    → pos_part z ≤ n + neg_part z
    → neg_part z ≤ n + pos_part z
    → fits_int z ≡ true
bounded n (pos k) l h g = fits_within n (pos k) l (omega (arith, h), omega arith)
bounded n (negsuc k) l h g = fits_within n (negsuc k) l (omega arith, omega (arith, g))

IsAway-fits :
    (p : ℕ) (s x x1 : ℤ) (a : ℕ)
    → p ≤ 2 * near
    → IsWithin near x1
    → a ≤ p
    → IsAway s x x1 a
    → fits_int x ≡ true
IsAway-fits p s x x1 a l w b (inl (e, h)) =
    bounded (3 * near) x (omega arith) (omega (arith, h, w.0, w.1, b, l))
      (omega (arith, h, w.0, w.1, b, l))
IsAway-fits p s x x1 a l w b (inr (e, h)) =
    bounded (3 * near) x (omega arith) (omega (arith, h, w.0, w.1, b, l))
      (omega (arith, h, w.0, w.1, b, l))

all_fit :
    {a b c d e : Bool}
    → a ≡ true
    → b ≡ true
    → c ≡ true
    → d ≡ true
    → e ≡ true
    → (a && (b && (c && (d && e)))) ≡ true
all_fit f g h i j = rw (f, g, h, i, j) refl

-- A round that leads on, towards an end that is near, computes no number that does not fit.
pub step_fits_lem :
    (p q : ℕ) (sx sy x1 y1 : ℤ) (a' b' : ℕ) (s : LineState)
    → p ≤ 2 * near
    → q ≤ 2 * near
    → IsWithin near x1
    → IsWithin near y1
    → IsRanged p q s.err
    → IsLeft p q sx sy x1 y1 a' b' (line_step (pos p) (pos 0 -ℤ pos q) sx sy s)
    → (step_fits (pos p) (pos 0 -ℤ pos q) sx sy s ≡ true)
      × IsRanged p q (line_step (pos p) (pos 0 -ℤ pos q) sx sy s).err
unfolding step_fits line_step
step_fits_lem p q sx sy x1 y1 a' b' s l m v w r next =
    let two = twice_parts s.err in
    let over = ltb_ℤ (pos 0 -ℤ pos q) (pos 2 *ℤ s.err) in
    let ranged = IsRanged-step p q s.err over (ltb_ℤ (pos 2 *ℤ s.err) (pos p)) refl refl r in
    let half = IsRanged-half p q s.err over r in
    (
      all_fit
          (bounded (8 * near) (pos 2 *ℤ s.err) (omega arith) (omega (arith, two, r.high, l))
            (omega (arith, two, r.low, m)))
          (bounded (6 * near) (if over then s.err +ℤ (pos 0 -ℤ pos q) else s.err) (omega arith)
            (omega (arith, half.0, l)) (omega (arith, half.1, m)))
          (bounded (4 * near) (line_step (pos p) (pos 0 -ℤ pos q) sx sy s).err (omega arith)
            (omega (arith, ranged.high, l)) (omega (arith, ranged.low, m)))
          (IsAway-fits p sx _ x1 a' l v next.balance.within_x next.away_x)
          (IsAway-fits q sy _ y1 b' m w next.balance.within_y next.away_y),
      ranged,
    )

-- The distance of two numbers that are near.
pub distance_fits :
    (x0 x1 : ℤ)
    → IsWithin near x0
    → IsWithin near x1
    → (magnitude (x1 -ℤ x0) ≤ 2 * near)
      × (fits_int (x1 -ℤ x0) ≡ true)
      × (fits_int (pos (magnitude (x1 -ℤ x0))) ≡ true)
distance_fits x0 x1 v w =
    let apart = -ℤ_parts x1 x0 in
    let l : magnitude (x1 -ℤ x0) ≤ 2 * near =
      close (x1 -ℤ x0) (omega (arith, apart, v, w)) (omega (arith, apart, v, w)) in
    (
      l,
      bounded (2 * near) (x1 -ℤ x0) (omega arith) (omega (arith, apart, v, w))
          (omega (arith, apart, v, w)),
      fits_within (2 * near) (pos (magnitude (x1 -ℤ x0))) (omega arith) (l, omega arith),
    )
  where
    close :
        (z : ℤ)
        → pos_part z ≤ 2 * near + neg_part z
        → neg_part z ≤ 2 * near + pos_part z
        → magnitude z ≤ 2 * near
    close (pos k) h g = omega (arith, h)
    close (negsuc k) h g = omega (arith, g)
