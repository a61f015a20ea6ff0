-- ===== src/LoadBalancer/Balancer/Ranked.antt =====
-- Which instance comes first in the ranking of the smart strategy.
use smol_router.Prelude.{
  ℕ, zero, suc, ◌≤◌, String, ◌≡◌, refl, sym, ◌∙◌, ◌↔◌, inl, inr, true, false, not, Option, none,
  some, List, [], ◌∷◌, map, arith, ltb, ◌==◌, eq_iff, leb, filter, length, get_elem?, All, In,
  All-filter, All-of_In, In-All, In-filter, In-sort_by, filter-Ascends, filter_of_filter, sort_on,
  sort_on-Ascends, Ascends, Bool-cases, Dict, or_else, All-sort_by, All-map_imp,
}
use mathlib.Core.Path.{subst}
use smol_router.LoadBalancer.Runtime.{Runtime}
use smol_router.LoadBalancer.Types.{HostMetrics, ModelInstance, equal}
use smol_router.LoadBalancer.Ranking.{
  load, tiebreak_score, put_first, score_all, is_similar, similar_to_best, choose_similar,
  break_tie, choose, rank_by_load, sort_by_smart_strategy,
}
use smol_router.LoadBalancer.Balancer.{offered_by}

In-nothing : {A : Type 0} (l : List A) → ((x : A) → ¬ In x l) → l ≡ []
In-nothing [] h = refl
In-nothing (x ∷ l) h = absurd (h x (inl refl))

module _ (R : Runtime) where
  open R use {Float, lt}

  All-map_scored :
      (P : ModelInstance R → Type 0) (f : ModelInstance R → Float) (xs : List (ModelInstance R))
      → All P xs
      → All (λ (s : Float × ModelInstance R). P s.1) (map (λ c. (f c, c)) xs)
  All-map_scored P f [] a = tt
  All-map_scored P f (x ∷ xs) a = (a.0, All-map_scored P f xs a.1)

  All-map_second :
      (P : ModelInstance R → Type 0) (xs : List (Float × ModelInstance R))
      → All (λ s. P s.1) xs
      → All P (map (λ s. s.1) xs)
  All-map_second P [] a = tt
  All-map_second P (x ∷ xs) a = (a.0, All-map_second P xs a.1)

  All-or_else :
      (P : ModelInstance R → Type 0) (xs : List (ModelInstance R)) (k : ℕ) (d : ModelInstance R)
      → All P xs
      → P d
      → P (or_else (get_elem? xs k) d)
  All-or_else P [] k d a h = h
  All-or_else P (x ∷ xs) zero d a h = a.0
  All-or_else P (x ∷ xs) (suc k) d a h = All-or_else P xs k d a.1 h

  module _ (P : ModelInstance R → Type 0) where
    score_all-All :
        (hosts : Dict (HostMetrics R)) (now : Float) (xs : List (ModelInstance R))
        → All P xs
        → All (λ (s : Float × ModelInstance R). P s.1) (score_all R hosts now xs)
    unfolding score_all
    score_all-All hosts now xs a =
        All-sort_by (λ s. P s.1) _ _ (All-map_scored P (tiebreak_score R hosts now) xs a)

    choose_similar-All :
        (counters : Dict ℕ) (base : String) (best : ModelInstance R) (xs : List (ModelInstance R))
        → P best
        → All P xs
        → P (choose_similar R counters base best xs).0
    unfolding choose_similar
    choose_similar-All counters base best xs h a = elim (Bool-cases (ltb 1 (length xs))) [
      | inl many ↦ rw many (All-or_else P xs _ best a h)
      | inr few ↦ rw few h
    ]

    break_tie-All :
        (counters : Dict ℕ) (base : String) (scored : List (Float × ModelInstance R))
        (first : ModelInstance R)
        → All (λ (s : Float × ModelInstance R). P s.1) scored
        → P first
        → P (break_tie R counters base scored first).0
    unfolding break_tie similar_to_best
    break_tie-All counters base [] first a h = h
    break_tie-All counters base ((score, best) ∷ scored) first a h =
        choose_similar-All counters base best _ a.0 (
          All-map_second P _
            (All-filter (λ s. P s.1) (is_similar R score) ((score, best) ∷ scored) a))

    -- Whoever breaks the tie, the choice is one of the candidates.
    choose-All :
        (hosts : Dict (HostMetrics R)) (counters : Dict ℕ) (now : Float) (base : String)
        (first : ModelInstance R) (candidates : List (ModelInstance R))
        → P first
        → All P candidates
        → P (choose R hosts counters now base first candidates).0
    unfolding choose
    choose-All hosts counters now base first candidates h a =
        elim (Bool-cases (length candidates == 1)) [
          | inl one ↦ rw one h
          | inr several ↦ rw several (
              break_tie-All counters base (score_all R hosts now candidates) first
                (score_all-All hosts now candidates a) h)
        ]

  -- `j` is in the list, and nobody there is less loaded.
  abbrev pub IsLeastLoaded : ModelInstance R → List (ModelInstance R) → Type 0
  IsLeastLoaded j l = In j l × All (λ k. load R j ≤ load R k) l

  equal-offered :
      (pin : Option String) (i j : ModelInstance R)
      → equal R i j ≡ true
      → offered_by R pin i ≡ offered_by R pin j
  unfolding equal
  equal-offered none i j e = refl
  equal-offered (some p) i j e =
      let same : i.provider_id ≡ j.provider_id =
        ground (arith, eq_iff i.provider_id j.provider_id) in
      rw same

  filter_offered :
      (pin : Option String) (selected : ModelInstance R) (l : List (ModelInstance R))
      → offered_by R pin selected ≡ false
      → filter (offered_by R pin) (put_first R selected l) ≡ filter (offered_by R pin) l
  unfolding put_first
  filter_offered pin selected l no_offer = rw no_offer (
      filter_of_filter (offered_by R pin) (λ i. not (equal R i selected)) l
        (λ i offer. ground (arith, equal-offered pin i selected)))

  Ascends-head :
      (j : ModelInstance R) (rest l : List (ModelInstance R))
      → l ≡ j ∷ rest
      → Ascends (load R) l
      → IsLeastLoaded j l
  Ascends-head j rest l e a = rw e (inl refl, (omega arith, (rw e at a).0))

  IsLeastLoaded-map :
      (j : ModelInstance R) (l l' : List (ModelInstance R))
      → ((k : ModelInstance R) → In k l ↔ In k l')
      → IsLeastLoaded j l
      → IsLeastLoaded j l'
  IsLeastLoaded-map j l l' same h = (
    (same j).0 h.0,
    All-of_In (λ k. load R j ≤ load R k) l' (λ k m. In-All _ l h.1 ((same k).1 m)),
  )

  -- The first offer of a ranking, by load but for the chosen one in front, is least loaded among
  -- all offers.
  put_first-IsLeastLoaded :
      (pin : Option String) (selected j : ModelInstance R) (rest l : List (ModelInstance R))
      → Ascends (load R) l
      → IsLeastLoaded selected l
      → filter (offered_by R pin) (put_first R selected l) ≡ j ∷ rest
      → IsLeastLoaded j (filter (offered_by R pin) l)
  put_first-IsLeastLoaded pin selected j rest l a least e =
      elim (Bool-cases (offered_by R pin selected)) [
        | inl offer ↦
            let same : selected ≡ j = unfold put_first in ground arith in
            rw (← same) (
              (In-filter (offered_by R pin) selected l).1 (least.0, offer),
              All-filter (λ k. load R selected ≤ load R k) (offered_by R pin) l least.1,
            )
        | inr no_offer ↦
            Ascends-head j rest (filter (offered_by R pin) l)
              (sym (filter_offered pin selected l no_offer) ∙ e)
              (filter-Ascends (load R) (offered_by R pin) l a)
      ]

  rank_by_load-IsLeastLoaded :
      (hosts : Dict (HostMetrics R)) (counters : Dict ℕ) (now : Float) (base : String)
      (pin : Option String) (j : ModelInstance R) (rest l : List (ModelInstance R))
      → Ascends (load R) l
      → filter (offered_by R pin) (rank_by_load R hosts counters now base l).0 ≡ j ∷ rest
      → IsLeastLoaded j (filter (offered_by R pin) l)
  unfolding rank_by_load
  rank_by_load-IsLeastLoaded hosts counters now base pin j rest [] a e = cc
  rank_by_load-IsLeastLoaded hosts counters now base pin j rest (first ∷ l) a e =
      let candidates = filter (λ i. load R i == load R first) (first ∷ l) in
      let chosen = choose R hosts counters now base first candidates in
      let (member, lowest) =
        choose-All (λ i. In i (first ∷ l) × (load R i ≡ load R first)) hosts counters now base first
          candidates (inl refl, refl)
          (All-of_In _ candidates (λ x m.
            let (there, low) = (In-filter (λ i. load R i == load R first) x (first ∷ l)).0 m in
            (there, ground arith))) in
      put_first-IsLeastLoaded pin chosen.0 j rest (first ∷ l) a
        (
          member,
          (
            omega (arith, lowest),
            All-map_imp (λ k. load R first ≤ load R k) (λ k. load R chosen.0 ≤ load R k) l
                (λ k le. omega (arith, lowest)) a.0,
          ),
        )
        e

  pub smart-IsLeastLoaded :
      (hosts : Dict (HostMetrics R)) (counters : Dict ℕ) (now : Float) (pin : Option String)
      (j : ModelInstance R) (rest l : List (ModelInstance R))
      → filter (offered_by R pin) (sort_by_smart_strategy R hosts counters now l).0 ≡ j ∷ rest
      → IsLeastLoaded j (filter (offered_by R pin) l)
  unfolding sort_by_smart_strategy
  smart-IsLeastLoaded hosts counters now pin j rest [] e = cc
  smart-IsLeastLoaded hosts counters now pin j rest (i ∷ l) e =
      let sorted = sort_on (load R) (i ∷ l) in
      IsLeastLoaded-map j (filter (offered_by R pin) sorted) (filter (offered_by R pin) (i ∷ l))
        (λ k.
          let (to, from) = In-filter (offered_by R pin) k sorted in
          let (to', from') = In-filter (offered_by R pin) k (i ∷ l) in
          let (there, back) = In-sort_by (λ x y. leb (load R x) (load R y)) k (i ∷ l) in
          (λ m. from' (there (to m).0, (to m).1), λ m. from (back (to' m).0, (to' m).1)))
        (rank_by_load-IsLeastLoaded hosts counters now i.base_name pin j rest sorted
          (sort_on-Ascends (load R) (i ∷ l)) e)

  put_first-empty :
      (pin : Option String) (selected : ModelInstance R) (l : List (ModelInstance R))
      → filter (offered_by R pin) (put_first R selected l) ≡ []
      → filter (offered_by R pin) l ≡ []
  put_first-empty pin selected l e = elim (Bool-cases (offered_by R pin selected)) [
    | inl offer ↦ absurd (unfold put_first in ground arith)
    | inr no_offer ↦ sym (filter_offered pin selected l no_offer) ∙ e
  ]

  rank_by_load-empty :
      (hosts : Dict (HostMetrics R)) (counters : Dict ℕ) (now : Float) (base : String)
      (pin : Option String) (l : List (ModelInstance R))
      → filter (offered_by R pin) (rank_by_load R hosts counters now base l).0 ≡ []
      → filter (offered_by R pin) l ≡ []
  unfolding rank_by_load
  rank_by_load-empty hosts counters now base pin [] e = refl
  rank_by_load-empty hosts counters now base pin (first ∷ l) e = put_first-empty pin _ (first ∷ l) e

  -- A ranking offers something if the instances that it ranks do.
  pub smart-empty :
      (hosts : Dict (HostMetrics R)) (counters : Dict ℕ) (now : Float) (pin : Option String)
      (l : List (ModelInstance R))
      → filter (offered_by R pin) (sort_by_smart_strategy R hosts counters now l).0 ≡ []
      → filter (offered_by R pin) l ≡ []
  unfolding sort_by_smart_strategy
  smart-empty hosts counters now pin [] e = refl
  smart-empty hosts counters now pin (i ∷ l) e =
      let sorted = sort_on (load R) (i ∷ l) in
      let nothing = rank_by_load-empty hosts counters now i.base_name pin sorted e in
      In-nothing (filter (offered_by R pin) (i ∷ l)) (λ k m.
        let (there, offer) = (In-filter (offered_by R pin) k (i ∷ l)).0 m in
        let ranked = (In-sort_by (λ x y. leb (load R x) (load R y)) k (i ∷ l)).1 there in
        subst (In k) nothing ((In-filter (offered_by R pin) k sorted).1 (ranked, offer)))
