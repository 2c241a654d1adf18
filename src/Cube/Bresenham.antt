-- ===== src/Cube/Bresenham.antt =====
-- The loop of `drawLine2D` ends on the far end of the line, after at most as many rounds as the two
-- distances together.
use matrixserver.Common.{
  ℕ, zero, suc, ◌+◌, ◌*◌, ◌≤◌, ◌<◌, ◌≡◌, refl, true, false, arith, inl, inr, ◌⊎◌, Bool-cases,
}
use matrixserver.Common.Int.{
  ℤ, pos, negsuc, ◌+ℤ◌, ◌-ℤ◌, ◌*ℤ◌, ◌==ℤ◌, ltb_ℤ, pos_part, neg_part, +ℤ_parts,
}
use matrixserver.Cube.Plane.{LineState, line_step, toward}
use matrixserver.Cube.Drawing.{magnitude}

-- `a` more steps of `s` lead from `x` to `x1`.
abbrev pub IsAway : ℤ → ℤ → ℤ → ℕ → Type 0
IsAway s x x1 a =
    ((s ≡ pos 1) × (pos_part x + neg_part x1 + a ≡ pos_part x1 + neg_part x))
    ⊎ ((s ≡ negsuc 0) × (pos_part x1 + neg_part x + a ≡ pos_part x + neg_part x1))

pub away_here : (s x x1 : ℤ) (a : ℕ) → IsAway s x x1 a → (x ==ℤ x1) ≡ true → a ≡ 0
away_here s x x1 a (inl h) e = ground (arith, h, e)
away_here s x x1 a (inr h) e = ground (arith, h, e)

pub away_there : (s x x1 : ℤ) (a : ℕ) → IsAway s x x1 a → (x ==ℤ x1) ≡ false → 0 < a
away_there s x x1 zero (inl h) e = ground (arith, h.1, e)
away_there s x x1 zero (inr h) e = ground (arith, h.1, e)
away_there s x x1 (suc a) w e = omega arith

IsAway-step : (s x x1 : ℤ) (a : ℕ) → IsAway s x x1 (suc a) → IsAway s (x +ℤ s) x1 a
unfolding ◌+ℤ◌
IsAway-step s x x1 a (inl h) = inl (h.0, rw (h.0) (ground (arith, h)))
IsAway-step s x x1 a (inr h) = inr (h.0, rw (h.0) (ground (arith, h)))

pub IsAway-start : (x x1 : ℤ) → IsAway (toward x x1) x x1 (magnitude (x1 -ℤ x))
unfolding ◌-ℤ◌
IsAway-start x x1 = elim (Bool-cases (ltb_ℤ x x1)) [
  | inl e ↦ rw e (inl (refl, ground (arith, e)))
  | inr e ↦ rw e (inr (refl, ground (arith, e)))
]

-- The error of the loop: `p` and `q` are the two distances, `a` and `b` the steps left along them.
pub record Balance (p q a b : ℕ) (err : ℤ) : Type 0 where
  pub within_x : a ≤ p
  pub within_y : b ≤ q
  pub error : pos_part err + q + p * b ≡ neg_part err + p + q * a

pub twice_parts :
    (e : ℤ) → pos_part (pos 2 *ℤ e) + 2 * neg_part e ≡ neg_part (pos 2 *ℤ e) + 2 * pos_part e
unfolding ◌*ℤ◌
twice_parts e = ground arith

pub minus_parts : (q : ℕ) → pos_part (pos 0 -ℤ pos q) + q ≡ neg_part (pos 0 -ℤ pos q)
unfolding ◌-ℤ◌
minus_parts q = ground arith

-- No step beyond the end.
past_x :
    (p q b : ℕ) (err : ℤ)
    → Balance p q 0 (suc b) err
    → ltb_ℤ (pos 0 -ℤ pos q) (pos 2 *ℤ err) ≡ false
past_x p q b err w =
    let more : p * suc b ≡ p * b + p = omega arith in
    ground (arith, w.error, more, twice_parts err, minus_parts q)

past_y : (p q a : ℕ) (err : ℤ) → Balance p q (suc a) 0 err → ltb_ℤ (pos 2 *ℤ err) (pos p) ≡ false
past_y p q a err w =
    let more : q * suc a ≡ q * a + q = omega arith in ground (arith, w.error, more, twice_parts err)

-- A step while there is a distance left.
moves :
    (p q a b : ℕ) (err : ℤ)
    → Balance p q a b err
    → 0 < a + b
    → ltb_ℤ (pos 0 -ℤ pos q) (pos 2 *ℤ err) ≡ false
    → ltb_ℤ (pos 2 *ℤ err) (pos p) ≡ true
moves p q a b err w l e =
    ground (arith, w.error, w.within_x, w.within_y, twice_parts err, minus_parts q)

Balance-x :
    (p q a b : ℕ) (err : ℤ) → Balance p q (suc a) b err → Balance p q a b (err +ℤ (pos 0 -ℤ pos q))
Balance-x p q a b err w =
    let more : q * suc a ≡ q * a + q = omega arith in
    record {
      within_x = omega (arith, w.within_x);
      within_y = w.within_y;
      error = omega (arith, w.error, more, +ℤ_parts err (pos 0 -ℤ pos q), minus_parts q);
    }

Balance-y : (p q a b : ℕ) (err : ℤ) → Balance p q a (suc b) err → Balance p q a b (err +ℤ pos p)
Balance-y p q a b err w =
    let more : p * suc b ≡ p * b + p = omega arith in
    record {
      within_x = w.within_x;
      within_y = omega (arith, w.within_y);
      error = omega (arith, w.error, more, +ℤ_parts err (pos p));
    }

pub Balance-start : (p q : ℕ) → Balance p q p q (pos p +ℤ (pos 0 -ℤ pos q))
Balance-start p q =
    let same : p * q ≡ q * p = omega arith in
    record {
      within_x = omega arith;
      within_y = omega arith;
      error = omega (arith, same, +ℤ_parts (pos p) (pos 0 -ℤ pos q), minus_parts q);
    }

-- `a` and `b` steps are left to the end of the line.
pub record IsLeft (p q : ℕ) (sx sy x1 y1 : ℤ) (a b : ℕ) (s : LineState) : Type 0 where
  pub away_x : IsAway sx s.x x1 a
  pub away_y : IsAway sy s.y y1 b
  pub balance : Balance p q a b s.err

pub line_step_lem :
    (p q : ℕ) (sx sy x1 y1 : ℤ) (a b : ℕ) (s : LineState)
    → IsLeft p q sx sy x1 y1 a b s
    → 0 < a + b
    → (a' : ℕ) × (b' : ℕ) × (a' + b' < a + b)
      × IsLeft p q sx sy x1 y1 a' b' (line_step (pos p) (pos 0 -ℤ pos q) sx sy s)
unfolding line_step
line_step_lem p q sx sy x1 y1 zero zero s w l = absurd (omega arith)
line_step_lem p q sx sy x1 y1 zero (suc b) s w l =
    let over = past_x p q b s.err w.balance in
    let under = moves p q zero (suc b) s.err w.balance l over in
    (
      zero,
      b,
      omega arith,
      record {
        away_x = rw over (w.away_x);
        away_y = rw under (IsAway-step sy s.y y1 b w.away_y);
        balance = rw (over, under) (Balance-y p q zero b s.err w.balance);
      },
    )
line_step_lem p q sx sy x1 y1 (suc a) zero s w l =
    let under = past_y p q a s.err w.balance in
    elim (Bool-cases (ltb_ℤ (pos 0 -ℤ pos q) (pos 2 *ℤ s.err))) [
      | inl over ↦ (
        a,
        zero,
        omega arith,
        record {
          away_x = rw over (IsAway-step sx s.x x1 a w.away_x);
          away_y = rw under (w.away_y);
          balance = rw (over, under) (Balance-x p q a zero s.err w.balance);
        },
      )
      | inr over ↦ absurd (ground (arith, under, moves p q (suc a) zero s.err w.balance l over))
    ]
line_step_lem p q sx sy x1 y1 (suc a) (suc b) s w l =
    elim (Bool-cases (ltb_ℤ (pos 0 -ℤ pos q) (pos 2 *ℤ s.err))) [
      | inl over ↦ elim (Bool-cases (ltb_ℤ (pos 2 *ℤ s.err) (pos p))) [
        | inl under ↦ (
          a,
          b,
          omega arith,
          record {
            away_x = rw over (IsAway-step sx s.x x1 a w.away_x);
            away_y = rw under (IsAway-step sy s.y y1 b w.away_y);
            balance =
                rw (over, under)
                  (Balance-y p q a b (s.err +ℤ (pos 0 -ℤ pos q))
                    (Balance-x p q a (suc b) s.err w.balance));
          },
        )
        | inr under ↦ (
          a,
          suc b,
          omega arith,
          record {
            away_x = rw over (IsAway-step sx s.x x1 a w.away_x);
            away_y = rw under (w.away_y);
            balance = rw (over, under) (Balance-x p q a (suc b) s.err w.balance);
          },
        )
      ]
      | inr over ↦
          let under = moves p q (suc a) (suc b) s.err w.balance l over in
          (
            suc a,
            b,
            omega arith,
            record {
              away_x = rw over (w.away_x);
              away_y = rw under (IsAway-step sy s.y y1 b w.away_y);
              balance = rw (over, under) (Balance-y p q (suc a) b s.err w.balance);
            },
          )
    ]
