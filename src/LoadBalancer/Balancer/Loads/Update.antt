-- ===== src/LoadBalancer/Balancer/Loads/Update.antt =====
-- Writes to one instance: what they keep of the list, and what they add to a host's load.
use smol_router.Prelude.{
  ℕ, ◌+◌, ◌≤◌, String, ◌≡◌, refl, sym, ap, inl, inr, true, false, some, List, [], ◌∷◌, arith,
  str_eq, eq_iff, if◌then◌else◌, find?, All, In, In-All, Bool-cases, sum_of,
}
use mathlib.Core.Path.{subst}
use smol_router.LoadBalancer.Runtime.{Runtime}
use smol_router.LoadBalancer.Types.{ModelInstance}
use smol_router.LoadBalancer.Registry.{is_named}
use smol_router.LoadBalancer.Balancer.{update_instance}

module _ (R : Runtime) where
  -- No two instances have the same `model_id` and `provider_url`.
  abbrev pub Distinct : List (ModelInstance R) → Type 0
  Distinct [] = Unit
  Distinct (i ∷ l) = All (λ j. is_named R i.model_id i.provider_url j ≡ false) l × Distinct l

  abbrev pub load_on : String → ModelInstance R → ℕ
  load_on h i = if str_eq i.host_id h then i.active_requests else 0

  -- The requests under way on the instances of a host.
  abbrev pub host_load : String → List (ModelInstance R) → ℕ
  host_load h l = sum_of (load_on h) l

  -- The write leaves the fields alone by which an instance is found.
  pub record KeepsNames (f : ModelInstance R → ModelInstance R) : Type 0 where
    pub model_id : (i : ModelInstance R) → (f i).model_id ≡ i.model_id
    pub provider_url : (i : ModelInstance R) → (f i).provider_url ≡ i.provider_url
    pub base_name : (i : ModelInstance R) → (f i).base_name ≡ i.base_name
    pub host_id : (i : ModelInstance R) → (f i).host_id ≡ i.host_id

  is_named_self : (i : ModelInstance R) → is_named R i.model_id i.provider_url i ≡ true
  is_named_self i =
      ground (arith, eq_iff i.model_id i.model_id, eq_iff i.provider_url i.provider_url)

  pub is_named_comm :
      (i j : ModelInstance R)
      → is_named R i.model_id i.provider_url j ≡ false
      → is_named R j.model_id j.provider_url i ≡ false
  is_named_comm i j h = ground (
    arith,
    eq_iff i.model_id j.model_id,
    eq_iff j.model_id i.model_id,
    eq_iff i.provider_url j.provider_url,
    eq_iff j.provider_url i.provider_url,
  )

  pub find?-named :
      (m u : String) (l : List (ModelInstance R)) (i : ModelInstance R)
      → find? (is_named R m u) l ≡ some i
      → In i l
  find?-named m u [] i e = cc
  find?-named m u (j ∷ l) i e = elim (Bool-cases (is_named R m u j)) [
    | inl hit ↦ inl (ground arith)
    | inr miss ↦ inr (find?-named m u l i (ground arith))
  ]

  update_absent :
      (f : ModelInstance R → ModelInstance R) (m u : String) (l : List (ModelInstance R))
      → All (λ j. is_named R m u j ≡ false) l
      → update_instance R f m u l ≡ l
  unfolding update_instance
  update_absent f m u [] a = refl
  update_absent f m u (j ∷ l) a = rw (a.0, update_absent f m u l a.1)

  abbrev Shifts :
      (ModelInstance R → ModelInstance R)
      → String
      → ModelInstance R
      → List (ModelInstance R)
      → Type 0
  Shifts f h i l =
      host_load h (update_instance R f i.model_id i.provider_url l) + load_on h i
      ≡ host_load h l + load_on h (f i)

  host_load-update_head :
      (f : ModelInstance R → ModelInstance R) (h : String) (i : ModelInstance R)
      (l : List (ModelInstance R))
      → All (λ j. is_named R i.model_id i.provider_url j ≡ false) l
      → Shifts f h i (i ∷ l)
  unfolding update_instance
  host_load-update_head f h i l a =
      let rest = ap (host_load h) (update_absent f i.model_id i.provider_url l a) in
      rw (is_named_self i) (omega arith)

  -- A write to one instance changes the load of a host by that instance's change alone.
  pub host_load-update :
      (f : ModelInstance R → ModelInstance R) (h : String) (i : ModelInstance R)
      (l : List (ModelInstance R))
      → Distinct l
      → In i l
      → host_load h (update_instance R f i.model_id i.provider_url l) + load_on h i
        ≡ host_load h l + load_on h (f i)
  unfolding update_instance
  host_load-update f h i [] d m = absurd m
  host_load-update f h i (j ∷ l) d (inl here) =
      subst (λ k. Shifts f h k (j ∷ l)) (sym here) (host_load-update_head f h j l d.0)
  host_load-update f h i (j ∷ l) d (inr there) =
      let other = is_named_comm j i (In-All _ l d.0 there) in
      rw other (omega (arith, host_load-update f h i l d.1 there))

  pub load_on-le :
      (h : String) (i : ModelInstance R) (l : List (ModelInstance R))
      → In i l
      → load_on h i ≤ host_load h l
  load_on-le h i [] m = absurd m
  load_on-le h i (j ∷ l) (inl here) = rw here (omega arith)
  load_on-le h i (j ∷ l) (inr there) = omega (arith, load_on-le h i l there)

  module _ (f : ModelInstance R → ModelInstance R) (keeps : KeepsNames f) (m u : String) where
    pub All-update :
        (P : ModelInstance R → Type 0) (l : List (ModelInstance R))
        → ((i : ModelInstance R) → P i → P (f i))
        → All P l
        → All P (update_instance R f m u l)
    unfolding update_instance
    All-update P [] g a = tt
    All-update P (i ∷ l) g a = elim (Bool-cases (is_named R m u i)) [
      | inl hit ↦ rw hit (g i a.0, All-update P l g a.1)
      | inr miss ↦ rw miss (a.0, All-update P l g a.1)
    ]

    pub Distinct-update :
        (l : List (ModelInstance R)) → Distinct l → Distinct (update_instance R f m u l)
    unfolding update_instance
    Distinct-update [] d = tt
    Distinct-update (i ∷ l) d =
        let others =
          All-update (λ j. is_named R i.model_id i.provider_url j ≡ false) l
            (λ j differs. rw (keeps.model_id j, keeps.provider_url j) differs) d.0 in
        elim (Bool-cases (is_named R m u i)) [
          | inl hit ↦
              rw hit (rw (keeps.model_id i, keeps.provider_url i) others, Distinct-update l d.1)
          | inr miss ↦ rw miss (others, Distinct-update l d.1)
        ]
