-- ===== src/Prelude/Keys.antt =====
-- Dictionaries in which no key is there twice, as a `dict` is, and what they hold.
use Prim.Native.String.{String}
use mathlib.Core.Path.{◌≡◌, refl, ap, ◌∙◌}
use mathlib.Core.Logic.{◌⊎◌, inl, inr, ◌≢◌}
use mathlib.Core.Bool.{false}
use mathlib.Core.List.{[], ◌∷◌}
use mathlib.Core.Option.{none, some}
use native.Mathlib.Omega.{arith}
use text.Mathlib.Text.{◌==◌}
use text.Mathlib.TextEquality.{eq_iff}
use smol_router.Prelude.Tests.{Bool-cases}
use smol_router.Prelude.Lists.{In}
use smol_router.Prelude.Dicts.{Dict, get, put, delete, get-put, get-delete}

module _ {V : Type 0} where
  -- No key of the dictionary is there twice.
  abbrev pub DistinctKeys : Dict V → Type 0
  DistinctKeys [] = Unit
  DistinctKeys ((k, v) ∷ d) = (get k d ≡ none) × DistinctKeys d

  fresh_key :
      (k j : String) (v : V) (d : Dict V)
      → get j d ≡ none
      → (j == k) ≡ false
      → get j (put k v d) ≡ none
  fresh_key k j v d absent other = ground (arith, get-put k j v d, eq_iff k j, eq_iff j k)

  pub put-DistinctKeys :
      (k : String) (v : V) (d : Dict V) → DistinctKeys d → DistinctKeys (put k v d)
  unfolding put get
  put-DistinctKeys k v [] a = (refl, tt)
  put-DistinctKeys k v ((j, w) ∷ d) a = elim (Bool-cases (j == k)) [
    | inl same ↦ rw same a
    | inr other ↦ rw other (fresh_key k j v d a.0 other, put-DistinctKeys k v d a.1)
  ]

  pub delete-DistinctKeys : (k : String) (d : Dict V) → DistinctKeys d → DistinctKeys (delete k d)
  unfolding delete
  delete-DistinctKeys k [] a = tt
  delete-DistinctKeys k ((j, w) ∷ d) a = elim (Bool-cases (j == k)) [
    | inl same ↦ rw same (delete-DistinctKeys k d a.1)
    | inr other ↦
        rw other (let absent = a.0 in ground (arith, get-delete k j d), delete-DistinctKeys k d a.1)
  ]

  pub In-of_get : (k : String) (v : V) (d : Dict V) → get k d ≡ some v → In (k, v) d
  unfolding get
  In-of_get k v [] h = cc
  In-of_get k v ((j, w) ∷ d) h = elim (Bool-cases (j == k)) [
    | inl same ↦
        let is_key : j ≡ k = (eq_iff j k).0 same in let is_value : w ≡ v = ground arith in inl cc
    | inr other ↦ inr (In-of_get k v d (rw other at h))
  ]

  In-absent : (k : String) (v : V) (d : Dict V) → In (k, v) d → get k d ≢ none
  unfolding get
  In-absent k v [] m absent = absurd m
  In-absent k v ((j, w) ∷ d) (inl e) absent =
      let is_key : k ≡ j = ap (λ p. p.0) e in ground (arith, eq_iff j k)
  In-absent k v ((j, w) ∷ d) (inr m) absent = elim (Bool-cases (j == k)) [
    | inl same ↦ absurd (let found = rw same at absent in cc)
    | inr other ↦ In-absent k v d m (rw other at absent)
  ]

  pub get-of_In :
      (k : String) (v : V) (d : Dict V) → DistinctKeys d → In (k, v) d → get k d ≡ some v
  unfolding get
  get-of_In k v [] a m = absurd m
  get-of_In k v ((j, w) ∷ d) a (inl e) =
      let is_key : k ≡ j = ap (λ p. p.0) e in
      let is_value : v ≡ w = ap (λ p. p.1) e in ground (arith, eq_iff j k)
  get-of_In k v ((j, w) ∷ d) a (inr m) = elim (Bool-cases (j == k)) [
    | inl same ↦
        let is_key : j ≡ k = (eq_iff j k).0 same in absurd (In-absent k v d m (rw (← is_key) a.0))
    | inr other ↦ rw other (get-of_In k v d a.1 m)
  ]

  pub In-put :
      (k j : String) (v w : V) (d : Dict V)
      → In (j, w) (put k v d)
      → ((j ≡ k) × (w ≡ v)) ⊎ In (j, w) d
  unfolding put
  In-put k j v w [] (inl e) = inl (ap (λ p. p.0) e, ap (λ p. p.1) e)
  In-put k j v w [] (inr m) = absurd m
  In-put k j v w ((i, u) ∷ d) m = elim (Bool-cases (i == k)) [
    | inl same ↦
        let is_key : i ≡ k = (eq_iff i k).0 same in
        elim (rw same at m) [
          | inl e ↦ inl (ap (λ p. p.0) e ∙ is_key, ap (λ p. p.1) e)
          | inr n ↦ inr (inr n)
        ]
    | inr other ↦ elim (rw other at m) [
      | inl e ↦ inr (inl e)
      | inr n ↦ elim (In-put k j v w d n) [ inl new ↦ inl new | inr old ↦ inr (inr old) ]
    ]
  ]

  pub In-delete : (k j : String) (w : V) (d : Dict V) → In (j, w) (delete k d) → In (j, w) d
  unfolding delete
  In-delete k j w [] m = m
  In-delete k j w ((i, u) ∷ d) m = elim (Bool-cases (i == k)) [
    | inl same ↦ inr (In-delete k j w d (rw same at m))
    | inr other ↦ elim (rw other at m) [ inl e ↦ inl e | inr n ↦ inr (In-delete k j w d n) ]
  ]
