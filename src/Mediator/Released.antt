-- ===== src/Mediator/Released.antt =====
-- The requests that the mediator begins on the load balancer, and those that it gives back.
use smol_router.Prelude.{
  ℕ, ◌+◌, ◌<◌, String, ◌≡◌, refl, ap, ◌⊎◌, inl, inr, false, Option, none, some, List, ◌∷◌, arith,
  str_eq, eq_iff, if◌then◌else◌, find?, find?-eq-some, In, Bool-cases, Option-cases,
}
use smol_router.ModelInfo.{ModelInfo}
use smol_router.Access.Patterns.{PatternEngine}
use smol_router.Strategy.Rules.{TextEngine}
use smol_router.LoadBalancer.Runtime.{Runtime}
use smol_router.LoadBalancer.Types.{ModelInstance, ModelLoadBalancer, spread_all_hosts}
use smol_router.LoadBalancer.Registry.{is_named}
use smol_router.LoadBalancer.Balancer.{
  start, begin_request, select_instance, finish, end_request, end_on,
}
use smol_router.LoadBalancer.Balancer.Select.{select_instance_refused}
use smol_router.LoadBalancer.Balancer.Health.{MayServe, select_instance-MayServe}
use smol_router.LoadBalancer.Balancer.Loads.{finish-KeepsNames, finish_active}
use smol_router.LoadBalancer.Balancer.Loads.Update.{Distinct, host_load, host_load-update}
use smol_router.LoadBalancer.Balancer.Step.{Calls, next, select, Calls-IsConsistent}
use smol_router.Mediator.{ModelMediator, serves, resolve_model_via_load_balancer}
use smol_router.Mediator.Balanced.{find?-started}

module _ (R : Runtime) where
  open R use {Float, from_ℕ}

  -- One request more on the host of the instance.
  abbrev pub one_on : String → ModelInstance R → ℕ
  one_on h j = if str_eq j.host_id h then 1 else 0

  begun :
      (now : Float) (h : String) (j : ModelInstance R) (s : ModelLoadBalancer R)
      → Distinct R s.instances
      → In j s.instances
      → host_load R h (begin_request R now j s).instances ≡ host_load R h s.instances + one_on h j
  unfolding begin_request start
  begun now h j s d m =
      let change = host_load-update R (start R now) h j s.instances d m in
      elim (Bool-cases (str_eq j.host_id h)) [
        | inl here ↦ rw here (let moved = rw here at change in omega arith)
        | inr elsewhere ↦ rw elsewhere (let moved = rw elsewhere at change in omega arith)
      ]

  ended :
      (now : Float) (h : String) (k : ModelInstance R) (s : ModelLoadBalancer R)
      → Distinct R s.instances
      → find? (is_named R k.model_id k.provider_url) s.instances ≡ some k
      → 0 < k.active_requests
      → host_load R h
            (end_request R k.model_id k.provider_url (from_ℕ 0) false (from_ℕ 0) now s).instances
          + one_on h k
        ≡ host_load R h s.instances
  unfolding end_request end_on
  ended now h k s d found busy =
      let m = (find?-eq-some (is_named R k.model_id k.provider_url) s.instances k found).0 in
      let change = host_load-update R (finish R (from_ℕ 0) false (from_ℕ 0)) h k s.instances d m in
      let names = finish-KeepsNames R (from_ℕ 0) false (from_ℕ 0) in
      let same_host = names.host_id k in
      let fewer = finish_active R (from_ℕ 0) false (from_ℕ 0) k in
      rw found (elim (Bool-cases (str_eq k.host_id h)) [
        | inl here ↦ rw here (let moved = rw (same_host, fewer, here) at change in omega arith)
        | inr elsewhere ↦
            rw elsewhere (let moved = rw (same_host, elsewhere) at change in omega arith)
      ])

module _ (E : PatternEngine) (T : TextEngine) (R : Runtime) where
  -- The mediator has a request under way that it had not, on an instance that may serve it, for an
  -- available model with the name and the endpoint of the instance.
  pub record IsBegun (name : String) (available : List ModelInfo) (pin : Option String)
      (s s' : ModelMediator E T R) (m : ModelInfo) (j : ModelInstance R) : Type 0 where
    pub listed : In m available
    pub may_serve : MayServe R s.balancer name pin j
    pub named : (m.name ≡ j.model_id) × (m.endpoint ≡ j.provider_url)
    pub attached : s'.attached ≡ m.id ∷ s.attached
    pub loads :
        (h : String)
        → host_load R h s'.balancer.instances ≡ host_load R h s.balancer.instances + one_on R h j

  -- The mediator has the requests under way that it had.
  pub record IsIdle (s s' : ModelMediator E T R) : Type 0 where
    pub attached : s'.attached ≡ s.attached
    pub loads :
        (h : String) → host_load R h s'.balancer.instances ≡ host_load R h s.balancer.instances

  selected :
      {n : ℕ} (now : R.Float) (name : String) (available : List ModelInfo) (pin : Option String)
      (s : ModelMediator E T R) (i : ModelInstance R)
      → Calls R n s.balancer
      → (select_instance R s.balancer name spread_all_hosts pin now).0 ≡ some i
      → (j : ModelInstance R) × (0 < i.active_requests)
        × ((i.model_id ≡ j.model_id) × (i.provider_url ≡ j.provider_url))
        × MayServe R s.balancer name pin j
        × ((h : String)
            → host_load R h (select_instance R s.balancer name spread_all_hosts pin now).1.instances
              ≡ host_load R h s.balancer.instances + one_on R h j)
        × ((h : String) → one_on R h i ≡ one_on R h j)
        × (find?
              (is_named R i.model_id i.provider_url)
              (select_instance R s.balancer name spread_all_hosts pin now).1.instances
            ≡ some i)
  unfolding begin_request start
  selected now name available pin s i r h =
      let (j, counters, started, may, after) =
        select_instance-MayServe R s.balancer name spread_all_hosts pin now i h in
      let c = Calls-IsConsistent R r in
      let found = find?-started R now j s.balancer.instances c.distinct may.registered in
      (
        j,
        (let count = ap (λ x. x.active_requests) started in omega arith),
        (ap (λ x. x.model_id) started, ap (λ x. x.provider_url) started),
        may,
        λ k. rw after (
            begun R now k j (record s.balancer { round_robin_counter = counters }) c.distinct
              may.registered),
        λ k. ap (one_on R k) started,
        rw (after, started) found,
      )

  -- After any calls of the load balancer, surplus ends included, a resolution through it either yields an available
  -- model and has begun one request, on an instance that may serve the name and that has the
  -- model's name and endpoint; or it yields none, and every host has the load that it had: no
  -- request stays counted that nothing will ever end.
  pub resolve_model_via_load_balancer_lem :
      {n : ℕ} (now : R.Float) (name : String) (available : List ModelInfo) (pin : Option String)
      (s : ModelMediator E T R)
      → Calls R n s.balancer
      → (((resolve_model_via_load_balancer E T R now name available pin s).0 ≡ none)
          × IsIdle s (resolve_model_via_load_balancer E T R now name available pin s).1)
        ⊎ ((m : ModelInfo) × (j : ModelInstance R) × ((resolve_model_via_load_balancer E T R now
                name available pin s).0
              ≡ some m)
            × IsBegun name available pin s
                (resolve_model_via_load_balancer E T R now name available pin s).1
                m
                j)
  unfolding resolve_model_via_load_balancer
  resolve_model_via_load_balancer_lem now name available pin s r =
      elim (Option-cases (select_instance R s.balancer name spread_all_hosts pin now).0) [
        | inl refused ↦
            let (counters, same) =
              select_instance_refused R s.balancer name spread_all_hosts pin now refused in
            rw (refused, same) (inl (refl, record { attached = refl; loads = λ h. refl }))
        | inr (i, hit) ↦
            let (j, busy, names, may, loads, same_host, found) =
              selected now name available pin s i r hit in
            elim (Option-cases (find? (serves E T R i) available)) [
              | inl missing ↦
                  let after = (select_instance R s.balancer name spread_all_hosts pin now).1 in
                  let c =
                    Calls-IsConsistent R
                      (next r (select s.balancer name spread_all_hosts pin now)) in
                  rw (hit, missing)
                    (inl (
                      refl,
                      record {
                        attached = refl;
                        loads = λ h. omega (
                          arith,
                          loads h,
                          same_host h,
                          ended R now h i after c.distinct found busy,
                        );
                      },
                    ))
              | inr (m, there) ↦
                  let (listed, fits) = find?-eq-some (serves E T R i) available m there in
                  rw (hit, there)
                    (inr (
                      m,
                      j,
                      refl,
                      record {
                        listed = listed;
                        may_serve = may;
                        named = (
                          let by_name = names.0 in ground (arith, eq_iff m.name i.model_id),
                          let by_url = names.1 in ground (arith, eq_iff m.endpoint i.provider_url),
                        );
                        attached = refl;
                        loads = loads;
                      },
                    ))
            ]
      ]
