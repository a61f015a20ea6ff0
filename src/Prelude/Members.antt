-- ===== src/Prelude/Members.antt =====
-- Membership with its place, and what filters and sorts keep of it.
use Prim.Native.Nat.{ℕ, ◌≤◌}
use mathlib.Core.Path.{◌≡◌, refl, sym}
use mathlib.Core.Logic.{◌⊎◌, inl, inr, ◌↔◌}
use mathlib.Core.Bool.{Bool, true, false}
use mathlib.Core.List.{List, [], ◌∷◌, ◌++◌}
use mathlib.Core.Option.{some}
use native.Mathlib.Omega.{arith}
use smol_router.Prelude.Tests.{Bool-cases}
use smol_router.Prelude.Lists.{filter, All, In, All-filter, any, find?}
use smol_router.Prelude.Sorting.{insert_by, sort_by, Ascends}

module _ {A : Type 0} where
  pub All-of_In : (P : A → Type 0) (xs : List A) → ((x : A) → In x xs → P x) → All P xs
  All-of_In P [] h = tt
  All-of_In P (x ∷ xs) h = (h x (inl refl), All-of_In P xs (λ y m. h y (inr m)))

  pub In-All : (P : A → Type 0) (xs : List A) {x : A} → All P xs → In x xs → P x
  In-All P [] a m = absurd m
  In-All P (y ∷ xs) a (inl e) = rw e a.0
  In-All P (y ∷ xs) a (inr m) = In-All P xs a.1 m

  pub All-map_imp : (P Q : A → Type 0) (xs : List A) → ((x : A) → P x → Q x) → All P xs → All Q xs
  All-map_imp P Q [] f a = tt
  All-map_imp P Q (x ∷ xs) f a = (f x a.0, All-map_imp P Q xs f a.1)

  pub In-filter :
      (p : A → Bool) (x : A) (xs : List A) → In x (filter p xs) ↔ (In x xs × (p x ≡ true))
  In-filter p x [] = (λ m. absurd m, λ m. m.0)
  In-filter p x (y ∷ xs) = elim (Bool-cases (p y)) [
    | inl kept ↦ rw kept (
      λ m. elim m [
        | inl e ↦ (inl e, rw e kept)
        | inr m ↦ (inr ((In-filter p x xs).0 m).0, ((In-filter p x xs).0 m).1)
      ],
      λ m. elim (m.0) [ inl e ↦ inl e | inr there ↦ inr ((In-filter p x xs).1 (there, m.1)) ],
    )
    | inr dropped ↦ rw dropped (
      λ m. (inr ((In-filter p x xs).0 m).0, ((In-filter p x xs).0 m).1),
      λ m. elim (m.0) [
        | inl e ↦ absurd (let clash : p x ≡ false = rw e dropped in ground arith)
        | inr there ↦ (In-filter p x xs).1 (there, m.1)
      ],
    )
  ]

  pub In-insert_by :
      (le : A → A → Bool) (x y : A) (xs : List A) → In x (insert_by le y xs) ↔ ((x ≡ y) ⊎ In x xs)
  unfolding insert_by
  In-insert_by le x y [] = (λ m. m, λ m. m)
  In-insert_by le x y (z ∷ xs) = elim (Bool-cases (le y z)) [
    | inl here ↦ rw here (λ m. m, λ m. m)
    | inr there ↦ rw there (
      λ m. elim m [
        | inl e ↦ inr (inl e)
        | inr m ↦ elim ((In-insert_by le x y xs).0 m) [ inl e ↦ inl e | inr n ↦ inr (inr n) ]
      ],
      λ m. elim m [
        | inl e ↦ inr ((In-insert_by le x y xs).1 (inl e))
        | inr m ↦ elim m [ inl e ↦ inl e | inr n ↦ inr ((In-insert_by le x y xs).1 (inr n)) ]
      ],
    )
  ]

  pub In-sort_by : (le : A → A → Bool) (x : A) (xs : List A) → In x (sort_by le xs) ↔ In x xs
  unfolding sort_by
  In-sort_by le x [] = (λ m. m, λ m. m)
  In-sort_by le x (y ∷ xs) =
      let (to, from) = In-insert_by le x y (sort_by le xs) in
      let (to', from') = In-sort_by le x xs in
      (
        λ m. elim (to m) [ inl e ↦ inl e | inr n ↦ inr (to' n) ],
        λ m. elim m [ inl e ↦ from (inl e) | inr n ↦ from (inr (from' n)) ],
      )

  pub filter-Ascends :
      (key : A → ℕ) (p : A → Bool) (xs : List A) → Ascends key xs → Ascends key (filter p xs)
  filter-Ascends key p [] a = tt
  filter-Ascends key p (x ∷ xs) a = elim (Bool-cases (p x)) [
    | inl kept ↦ rw kept (All-filter (λ y. key x ≤ key y) p xs a.0, filter-Ascends key p xs a.1)
    | inr dropped ↦ rw dropped (filter-Ascends key p xs a.1)
  ]

  -- A filter behind a weaker one.
  pub filter_of_filter :
      (p q : A → Bool) (xs : List A)
      → ((x : A) → p x ≡ true → q x ≡ true)
      → filter p (filter q xs) ≡ filter p xs
  filter_of_filter p q [] h = refl
  filter_of_filter p q (x ∷ xs) h = ground (arith, h x, filter_of_filter p q xs h)

  pub filter-ext :
      (p q : A → Bool) (xs : List A) → ((x : A) → p x ≡ q x) → filter p xs ≡ filter q xs
  filter-ext p q [] h = refl
  filter-ext p q (x ∷ xs) h = rw (h x, filter-ext p q xs h)

  pub any-of_In : (p : A → Bool) (x : A) (xs : List A) → In x xs → p x ≡ true → any p xs ≡ true
  any-of_In p x [] m h = absurd m
  any-of_In p x (y ∷ xs) (inl e) h = let here : p y ≡ true = rw (← e) h in ground arith
  any-of_In p x (y ∷ xs) (inr m) h = ground (arith, any-of_In p x xs m h)

  pub not_any-of_In :
      (p : A → Bool) (x : A) (xs : List A) → any p xs ≡ false → In x xs → p x ≡ false
  not_any-of_In p x xs h m = elim (Bool-cases (p x)) [
    | inl yes_p ↦ absurd (let hit = any-of_In p x xs m yes_p in ground arith)
    | inr no_p ↦ no_p
  ]

  pub In-append : (x : A) (xs ys : List A) → In x (xs ++ ys) ↔ (In x xs ⊎ In x ys)
  In-append x [] ys = (λ m. inr m, λ m. elim m [ inl n ↦ absurd n | inr n ↦ n ])
  In-append x (y ∷ xs) ys =
      let (to, from) = In-append x xs ys in
      (
        λ m. elim m [
          | inl e ↦ inl (inl e)
          | inr n ↦ elim (to n) [ inl n' ↦ inl (inr n') | inr n' ↦ inr n' ]
        ],
        λ m. elim m [
          | inl n ↦ elim n [ inl e ↦ inl e | inr n' ↦ inr (from (inl n')) ]
          | inr n ↦ inr (from (inr n))
        ],
      )

  pub find?-eq-some :
      (p : A → Bool) (xs : List A) (x : A) → find? p xs ≡ some x → In x xs × (p x ≡ true)
  find?-eq-some p [] x h = cc
  find?-eq-some p (y ∷ xs) x h = elim (Bool-cases (p y)) [
    | inl hit ↦ let is_first : y ≡ x = ground arith in (inl (sym is_first), rw (← is_first) hit)
    | inr miss ↦ let (there, passes) = find?-eq-some p xs x (rw miss at h) in (inr there, passes)
  ]
