-- ===== src/Params/TextMap.antt =====
-- `std::map` with string keys: an association list in the order of the keys' bytes.
use matrixserver.Common.{
  Bool-cases, inl, inr, subst, ◌≡◌, refl, List, [], ◌∷◌, Option, some, none, Bool, true, false,
  if◌then◌else◌, arith, ltb, ◌==◌, ◌&&◌, ◌||◌, ◌↔◌,
}
use mathlib.Core.Option
use matrixserver.Common.Sequences.{All}
use matrixserver.Protocol.{Text, text_eq}

abbrev pub text_lt : Text → Text → Bool
text_lt [] [] = false
text_lt [] (y ∷ ys) = true
text_lt (x ∷ xs) [] = false
text_lt (x ∷ xs) (y ∷ ys) = ltb x y || (x == y && text_lt xs ys)

pub text_eq_iff : (s t : Text) → (text_eq s t ≡ true) ↔ (s ≡ t)
text_eq_iff [] [] = (λ e. refl, λ e. refl)
text_eq_iff [] (y ∷ ys) = (λ e. cc, λ e. absurd (ground arith))
text_eq_iff (x ∷ xs) [] = (λ e. cc, λ e. absurd (ground arith))
text_eq_iff (x ∷ xs) (y ∷ ys) =
    (λ e. ground (arith, text_eq_iff xs ys), λ e. ground (arith, text_eq_iff xs ys))

-- Of two different texts, one comes first.
text_total : (s t : Text) → text_eq s t ≡ false → text_lt s t ≡ false → text_lt t s ≡ true
text_total [] [] e l = cc
text_total [] (y ∷ ys) e l = cc
text_total (x ∷ xs) [] e l = refl
text_total (x ∷ xs) (y ∷ ys) e l = ground (arith, text_total xs ys)

module _ {V : Type 0} where
  -- `find`
  unfoldable pub lookup : Text → List (Text × V) → Option V
  lookup k [] = none
  lookup k ((j, v) ∷ m) = let more = lookup k m in if text_eq j k then some v else more

  -- `params_[key] = record`
  unfoldable pub insert : Text → V → List (Text × V) → List (Text × V)
  insert k v [] = (k, v) ∷ []
  insert k v ((j, w) ∷ m) =
      let more = (j, w) ∷ insert k v m in
      if text_eq j k then (k, v) ∷ m else (if text_lt k j then (k, v) ∷ ((j, w) ∷ m) else more)

  -- A write through the iterator that `find` returned, if it is not `end`.
  unfoldable pub modify : (V → V) → Text → List (Text × V) → List (Text × V)
  modify f k [] = []
  modify f k ((j, v) ∷ m) =
      let more = (j, v) ∷ modify f k m in if text_eq j k then (j, f v) ∷ m else more

  abbrev pub Above : Text → List (Text × V) → Type 0
  Above k [] = Unit
  Above k ((j, w) ∷ m) = text_lt k j ≡ true

  -- The keys rise strictly: each stands once.
  abbrev pub IsSorted : List (Text × V) → Type 0
  IsSorted [] = Unit
  IsSorted ((k, v) ∷ m) = Above k m × IsSorted m

  pub lookup-insert :
      (k j : Text) (v : V) (m : List (Text × V))
      → lookup j (insert k v m) ≡ (if text_eq k j then some v else lookup j m)
  unfolding lookup insert
  lookup-insert k j v [] = refl
  lookup-insert k j v ((i, w) ∷ m) =
      ground (arith, text_eq_iff i k, text_eq_iff i j, text_eq_iff k j, lookup-insert k j v m)

  pub lookup-modify :
      (f : V → V) (k j : Text) (m : List (Text × V))
      → lookup j (modify f k m) ≡ (if text_eq k j then Option.map f (lookup j m) else lookup j m)
  unfolding lookup modify
  lookup-modify f k j [] = ground arith
  lookup-modify f k j ((i, w) ∷ m) =
      ground (arith, text_eq_iff i k, text_eq_iff i j, text_eq_iff k j, lookup-modify f k j m)

  Above-insert :
      (j k : Text) (v : V) (m : List (Text × V))
      → text_lt j k ≡ true
      → Above j m
      → Above j (insert k v m)
  unfolding insert
  Above-insert j k v [] l a = l
  Above-insert j k v ((i, x) ∷ m) l a = elim (Bool-cases (text_eq i k)) [
    | inl e ↦ rw e l
    | inr n ↦ elim (Bool-cases (text_lt k i)) [ inl b ↦ rw (n, b) l | inr b ↦ rw (n, b) a ]
  ]

  pub insert-IsSorted :
      (k : Text) (v : V) (m : List (Text × V)) → IsSorted m → IsSorted (insert k v m)
  unfolding insert
  insert-IsSorted k v [] s = (tt, tt)
  insert-IsSorted k v ((j, w) ∷ m) s = elim (Bool-cases (text_eq j k)) [
    | inl e ↦ rw e (subst (λ t. Above t m) ((text_eq_iff j k).0 e) s.0, s.1)
    | inr n ↦ elim (Bool-cases (text_lt k j)) [
      | inl b ↦ rw (n, b) (b, s)
      | inr b ↦
          rw (n, b)
            (Above-insert j k v m (text_total k j (different n) b) s.0, insert-IsSorted k v m s.1)
    ]
  ]
    where
      different : text_eq j k ≡ false → text_eq k j ≡ false
      different n = ground (arith, text_eq_iff j k, text_eq_iff k j)

  Above-modify : (f : V → V) (j k : Text) (m : List (Text × V)) → Above j m → Above j (modify f k m)
  unfolding modify
  Above-modify f j k [] a = tt
  Above-modify f j k ((i, x) ∷ m) a = elim (Bool-cases (text_eq i k)) [
    | inl e ↦ rw e a
    | inr n ↦ rw n a
  ]

  pub modify-IsSorted :
      (f : V → V) (k : Text) (m : List (Text × V)) → IsSorted m → IsSorted (modify f k m)
  unfolding modify
  modify-IsSorted f k [] s = tt
  modify-IsSorted f k ((j, w) ∷ m) s = elim (Bool-cases (text_eq j k)) [
    | inl e ↦ rw e s
    | inr n ↦ rw n (Above-modify f j k m s.0, modify-IsSorted f k m s.1)
  ]

text_lt_trans : (r s t : Text) → text_lt r s ≡ true → text_lt s t ≡ true → text_lt r t ≡ true
text_lt_trans [] [] t a b = cc
text_lt_trans [] (y ∷ ys) [] a b = cc
text_lt_trans [] (y ∷ ys) (z ∷ zs) a b = refl
text_lt_trans (x ∷ xs) [] t a b = cc
text_lt_trans (x ∷ xs) (y ∷ ys) [] a b = cc
text_lt_trans (x ∷ xs) (y ∷ ys) (z ∷ zs) a b = ground (arith, text_lt_trans xs ys zs)

pub text_lt_ne : (s t : Text) → text_lt s t ≡ true → text_eq s t ≡ false
text_lt_ne [] [] e = cc
text_lt_ne [] (y ∷ ys) e = refl
text_lt_ne (x ∷ xs) [] e = refl
text_lt_ne (x ∷ xs) (y ∷ ys) e = ground (arith, text_lt_ne xs ys)

Above-trans :
    {V : Type 0} (i j : Text) (m : List (Text × V)) → text_lt i j ≡ true → Above j m → Above i m
Above-trans i j [] l b = tt
Above-trans i j ((h, w) ∷ m) l b = text_lt_trans i j h l b

-- A key below a sorted map's first key differs from all its keys.
pub sorted_differ :
    {V : Type 0} (k : Text) (m : List (Text × V))
    → Above k m
    → IsSorted m
    → All (λ e. text_eq k e.0 ≡ false) m
sorted_differ k [] a s = tt
sorted_differ k ((j, v) ∷ m) a s =
    (text_lt_ne k j a, sorted_differ k m (Above-trans k j m a s.0) s.1)
