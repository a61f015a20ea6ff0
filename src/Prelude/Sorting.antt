-- ===== src/Prelude/Sorting.antt =====
-- `sorted(xs, key=...)`: a stable sort, here by insertion, over the Boolean order `le`.
use Prim.Native.Nat.{ℕ, ◌≤◌}
use mathlib.Core.Bool.{Bool}
use mathlib.Core.Logic.{inl, inr}
use mathlib.Core.List.{List, [], ◌∷◌}
use native.Mathlib.Omega.{arith}
use smol_router.Prelude.Tests.{if◌then◌else◌, leb, Bool-cases}
use smol_router.Prelude.Lists.{All}

module _ {ℓ} {A : Type ℓ} where
  unfoldable pub insert_by : (A → A → Bool) → A → List A → List A
  insert_by le x [] = x ∷ []
  insert_by le x (y ∷ ys) = if le x y then x ∷ y ∷ ys else y ∷ insert_by le x ys

  unfoldable pub sort_by : (A → A → Bool) → List A → List A
  unfolding insert_by
  sort_by le [] = []
  sort_by le (x ∷ xs) = insert_by le x (sort_by le xs)

  -- `xs.sort(key=...)` with a key in the numbers
  abbrev pub sort_on : (A → ℕ) → List A → List A
  sort_on key = sort_by (λ x y. leb (key x) (key y))

  -- Ascending by a numeric key.
  abbrev pub Ascends : (A → ℕ) → List A → Type 0
  Ascends key [] = Unit
  Ascends key (x ∷ xs) = All (λ y. key x ≤ key y) xs × Ascends key xs

  All-le_trans :
      (key : A → ℕ) (m n : ℕ) (xs : List A)
      → m ≤ n
      → All (λ y. n ≤ key y) xs
      → All (λ y. m ≤ key y) xs
  All-le_trans key m n [] h a = tt
  All-le_trans key m n (x ∷ xs) h a = (omega arith, All-le_trans key m n xs h a.1)

  module _ (P : A → Type 0) (le : A → A → Bool) where
    All-insert_by : (x : A) (xs : List A) → P x → All P xs → All P (insert_by le x xs)
    unfolding insert_by
    All-insert_by x [] h a = (h, tt)
    All-insert_by x (y ∷ ys) h a = ground (arith, All-insert_by x ys h a.1)

    pub All-sort_by : (xs : List A) → All P xs → All P (sort_by le xs)
    unfolding sort_by
    All-sort_by [] a = tt
    All-sort_by (x ∷ xs) a = All-insert_by x (sort_by le xs) a.0 (All-sort_by xs a.1)

  insert_by-Ascends :
      (key : A → ℕ) (x : A) (xs : List A)
      → Ascends key xs
      → Ascends key (insert_by (λ a b. leb (key a) (key b)) x xs)
  unfolding insert_by
  insert_by-Ascends key x [] s = (tt, tt)
  insert_by-Ascends key x (y ∷ ys) s = elim (Bool-cases (leb (key x) (key y))) [
    | inl first ↦
        rw first ((ground arith, All-le_trans key (key x) (key y) ys (ground arith) s.0), s)
    | inr later ↦ rw later (
      All-insert_by (λ b. key y ≤ key b) (λ a b. leb (key a) (key b)) x ys (ground arith) s.0,
      insert_by-Ascends key x ys s.1,
    )
  ]

  -- The result of a sort by a numeric key ascends.
  pub sort_on-Ascends : (key : A → ℕ) (xs : List A) → Ascends key (sort_on key xs)
  unfolding sort_by
  sort_on-Ascends key [] = tt
  sort_on-Ascends key (x ∷ xs) = insert_by-Ascends key x (sort_on key xs) (sort_on-Ascends key xs)
