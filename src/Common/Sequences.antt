-- ===== src/Common/Sequences.antt =====
-- Predicates and lemmas on byte sequences that the framing and the buffers share.
use matrixserver.Common.{
  ℕ, zero, suc, ◌≡◌, refl, List, [], ◌∷◌, ◌++◌, Option, some, none, arith, length,
}

-- Every element satisfies the predicate.
abbrev pub All {ℓ κ} : {A : Type ℓ} → (A → Type κ) → List A → Type κ
All P [] = Unit
All P (x ∷ xs) = P x × All P xs

module _ {ℓ κ} {A : Type ℓ} (P : A → Type κ) where
  pub All-append : (xs ys : List A) → All P xs → All P ys → All P (xs ++ ys)
  All-append [] ys p q = q
  All-append (x ∷ xs) ys p q = (p.0, All-append xs ys p.1 q)

module _ {ℓ} {A : Type ℓ} where
  -- `vector::at` as a write: out of range it throws.
  abbrev pub set_at : List A → ℕ → A → Option (List A)
  set_at [] i v = none
  set_at (x ∷ xs) zero v = some (v ∷ xs)
  set_at (x ∷ xs) (suc i) v = elim (set_at xs i v) [ none ↦ none | some ys ↦ some (x ∷ ys) ]

  -- `resize`: cut to `n` elements, or filled up with `d`.
  abbrev pub resize : List A → ℕ → A → List A
  resize xs zero d = []
  resize [] (suc n) d = d ∷ resize [] n d
  resize (x ∷ xs) (suc n) d = x ∷ resize xs n d

  pub set_at-append :
      (xs ys : List A) (i : ℕ) (x v : A)
      → i ≡ length xs
      → set_at (xs ++ (x ∷ ys)) i v ≡ some (xs ++ (v ∷ ys))
  set_at-append [] ys zero x v e = refl
  set_at-append [] ys (suc i) x v e = absurd (omega arith)
  set_at-append (w ∷ xs) ys zero x v e = absurd (omega arith)
  set_at-append (w ∷ xs) ys (suc i) x v e = ground (arith, set_at-append xs ys i x v)

  pub resize_cut : (xs ys : List A) (n : ℕ) (d : A) → n ≡ length xs → resize (xs ++ ys) n d ≡ xs
  resize_cut [] ys zero d e = refl
  resize_cut [] ys (suc n) d e = absurd (omega arith)
  resize_cut (x ∷ xs) ys zero d e = absurd (omega arith)
  resize_cut (x ∷ xs) ys (suc n) d e = ground (arith, resize_cut xs ys n d)
