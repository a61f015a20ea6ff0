-- ===== src/Access/Control/Laws.antt =====
-- What a composite of access controls lets through, as a list and model by model.
use smol_router.Prelude.{
  ◌≡◌, refl, ap, ◌∙◌, sym, ◌≢◌, Bool, true, false, ◌&&◌, ◌||◌, List, [], ◌∷◌, ◌++◌, map, arith,
  filter, In, Bool-cases, str_eq, eq_iff, All, In-All, All-filter, inl, inr, String,
}
use smol_router.ModelInfo.{ModelInfo, DistinctIds}
use smol_router.Access.Patterns.{PatternEngine}
use smol_router.Access.Ip.Laws.{ip_filter_eq}
use smol_router.Access.Auth.Laws.{auth_filter_eq}
use smol_router.Access.Control.{
  Client, all_of, any_of, AccessControl, no_control, by_ip, by_auth, composite, Controls, nil, cons,
  has_id, filter_models, filter_in_turn, allowed_ids, can_access_model, all_allow, some_allows,
}

same : (s : String) → str_eq s s ≡ true
same s = (eq_iff s s).1 refl

different : {s t : String} → s ≢ t → str_eq s t ≡ false
different {s} {t} n = elim (Bool-cases (str_eq s t)) [
  | inl hit ↦ absurd (n ((eq_iff s t).0 hit))
  | inr miss ↦ miss
]

filter_all : (l : List ModelInfo) → l ≡ filter (λ _. true) l
filter_all [] = refl
filter_all (m ∷ l) = ap (λ k. m ∷ k) (filter_all l)

filter_and :
    (p q : ModelInfo → Bool) (l : List ModelInfo)
    → filter q (filter p l) ≡ filter (λ m. p m && q m) l
filter_and p q [] = refl
filter_and p q (m ∷ l) = ground (arith, filter_and p q l)

filter-ext_In :
    (p q : ModelInfo → Bool) (l : List ModelInfo)
    → ((m : ModelInfo) → In m l → p m ≡ q m)
    → filter p l ≡ filter q l
filter-ext_In p q [] h = refl
filter-ext_In p q (m ∷ l) h = rw (h m (inl refl), filter-ext_In p q l (λ k there. h k (inr there)))

DistinctIds-filter :
    (p : ModelInfo → Bool) (l : List ModelInfo) → DistinctIds l → DistinctIds (filter p l)
DistinctIds-filter p [] d = tt
DistinctIds-filter p (m ∷ l) d = elim (Bool-cases (p m)) [
  | inl kept ↦ rw kept (All-filter (λ k. k.id ≢ m.id) p l d.0, DistinctIds-filter p l d.1)
  | inr dropped ↦ rw dropped (DistinctIds-filter p l d.1)
]

has_id-append : (a b : List String) (i : String) → has_id (a ++ b) i ≡ (has_id a i || has_id b i)
has_id-append [] b i = refl
has_id-append (x ∷ a) b i = ground (arith, has_id-append a b i)

other_id :
    (p : ModelInfo → Bool) (i : String) (l : List ModelInfo)
    → All (λ k. k.id ≢ i) l
    → has_id (map (λ k. k.id) (filter p l)) i ≡ false
other_id p i [] a = refl
other_id p i (m ∷ l) a =
    let apart : str_eq i m.id ≡ false = different (λ e. a.0 (sym e)) in
    elim (Bool-cases (p m)) [
      | inl kept ↦ rw (kept, apart) (other_id p i l a.1)
      | inr dropped ↦ rw dropped (other_id p i l a.1)
    ]

-- Among models with distinct ids, an id is that of a model that passes just when its model passes.
has_id-filter :
    (p : ModelInfo → Bool) (m : ModelInfo) (l : List ModelInfo)
    → DistinctIds l
    → In m l
    → has_id (map (λ k. k.id) (filter p l)) m.id ≡ p m
has_id-filter p m [] d i = absurd i
has_id-filter p m (k ∷ l) d (inl e) = rw e (elim (Bool-cases (p k)) [
  | inl kept ↦ rw (kept, same k.id) refl
  | inr dropped ↦ rw dropped (other_id p k.id l d.0)
])
has_id-filter p m (k ∷ l) d (inr i) =
    let apart : str_eq m.id k.id ≡ false = different (In-All (λ n. n.id ≢ k.id) l d.0 i) in
    elim (Bool-cases (p k)) [
      | inl kept ↦ rw (kept, apart) (has_id-filter p m l d.1 i)
      | inr dropped ↦ rw dropped (has_id-filter p m l d.1 i)
    ]

module _ (E : PatternEngine) (client : Client) where
  mutual
    unfolding filter_models filter_in_turn allowed_ids can_access_model all_allow some_allows

    filter_kept :
        (c : AccessControl) (l : List ModelInfo)
        → DistinctIds l
        → filter_models E client c l ≡ filter (can_access_model E client c) l
    filter_kept no_control l d = filter_all l
    filter_kept (by_ip rules) l d = ip_filter_eq E rules client.ip l
    filter_kept (by_auth a) l d = auth_filter_eq E a client.auth_payload l
    filter_kept (composite nil mode) l d = filter_all l
    filter_kept (composite (cons c cs) all_of) l d = filter_in_turn_lem (cons c cs) l d
    filter_kept (composite (cons c cs) any_of) l d =
        filter-ext_In _ _ l (λ m i. has_id-allowed (cons c cs) l d m i)

    filter_in_turn_lem :
        (cs : Controls) (l : List ModelInfo)
        → DistinctIds l
        → filter_in_turn E client cs l ≡ filter (all_allow E client cs) l
    filter_in_turn_lem nil l d = filter_all l
    filter_in_turn_lem (cons c cs) l d =
        ap (filter_in_turn E client cs) (filter_kept c l d)
        ∙ filter_in_turn_lem cs (filter (can_access_model E client c) l)
            (DistinctIds-filter (can_access_model E client c) l d)
        ∙ filter_and (can_access_model E client c) (all_allow E client cs) l

    has_id-allowed :
        (cs : Controls) (l : List ModelInfo)
        → DistinctIds l
        → (m : ModelInfo) → In m l
        → has_id (allowed_ids E client cs l) m.id ≡ some_allows E client cs m
    has_id-allowed nil l d m i = refl
    has_id-allowed (cons c cs) l d m i = rw (
      has_id-append (map (λ k. k.id) (filter_models E client c l)) (allowed_ids E client cs l) m.id,
      filter_kept c l d,
      has_id-filter (can_access_model E client c) m l d i,
      has_id-allowed cs l d m i,
    )

  -- In a list of models with distinct ids, every kind of access control, however nested, keeps
  -- exactly the models that it lets the client access, in their order.
  pub filter_models_lem :
      (c : AccessControl) (l : List ModelInfo)
      → DistinctIds l
      → filter_models E client c l ≡ filter (can_access_model E client c) l
  filter_models_lem = filter_kept
