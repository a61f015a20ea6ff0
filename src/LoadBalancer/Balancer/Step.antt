-- ===== src/LoadBalancer/Balancer/Step.antt =====
-- The states that the load balancer reaches: any order of its methods, and how many of the ends were
-- surplus.
use smol_router.Prelude.{
  ℕ, suc, ◌<◌, ◌≤◌, ◌+◌, String, ◌≡◌, refl, inl, inr, Bool, true, false, Option, some, [], arith,
  str_eq, find?, All-map_imp, Bool-cases, Option-cases, Dict, get, has,
}
use smol_router.LoadBalancer.Runtime.{Runtime}
use smol_router.LoadBalancer.Types.{
  DistributionStrategy, spread_all_hosts, HostMetrics, ModelInstance, ModelLoadBalancer,
}
use smol_router.LoadBalancer.Registry.{is_named}
use smol_router.LoadBalancer.Balancer.{
  register_model_instance, update_instance, select_instance, end_request, set_health,
  mark_instance_unhealthy, mark_instance_healthy, mark_host_unhealthy, mark_host_healthy,
  set_distribution_strategy,
}
use smol_router.LoadBalancer.Balancer.Select.{select_instance_refused}
use smol_router.LoadBalancer.Balancer.Health.{select_instance-MayServe}
use smol_router.LoadBalancer.Balancer.Loads.Update.{Distinct, host_load, find?-named}
use smol_router.LoadBalancer.Balancer.Loads.{
  update_host-has, IsConsistent, begin_request-IsConsistent, end_on-IsConsistent,
}
use smol_router.LoadBalancer.Balancer.Marks.{update_host-idle, mark-IsConsistent}
use smol_router.LoadBalancer.Balancer.Registered.{register-IsConsistent}

module _ (R : Runtime) where
  open R use {Float, from_ℕ}

  abbrev pub init : ModelLoadBalancer R
  init = record {
    instances = [];
    hosts = [];
    active_requests = [];
    stats = record {
      total_requests = 0;
      successful_requests = 0;
      failed_requests = 0;
      avg_response_time = from_ℕ 0;
    };
    default_distribution_strategy = spread_all_hosts;
    round_robin_counter = [];
  }

  -- One call of a method, but for a surplus end: a request is ended on an instance that has one under
  -- way.
  pub data Step : ModelLoadBalancer R → ModelLoadBalancer R → Type 0 where
    register :
        (s : ModelLoadBalancer R) (m p u : String) (now : Float)
        → Step s (register_model_instance R m p u now s)
    select :
        (s : ModelLoadBalancer R) (m : String) (d : DistributionStrategy) (pin : Option String)
        (now : Float)
        → Step s (select_instance R s m d pin now).1
    finish :
        (s : ModelLoadBalancer R) (m u : String) (time ttft now : Float) (success : Bool)
        (i : ModelInstance R)
        → find? (is_named R m u) s.instances ≡ some i
        → 0 < i.active_requests
        → Step s (end_request R m u time success ttft now s)
    sicken : (s : ModelLoadBalancer R) (m u : String) → Step s (mark_instance_unhealthy R m u s)
    heal : (s : ModelLoadBalancer R) (m u : String) → Step s (mark_instance_healthy R m u s)
    sicken_host : (s : ModelLoadBalancer R) (h : String) → Step s (mark_host_unhealthy R h s)
    heal_host : (s : ModelLoadBalancer R) (h : String) → Step s (mark_host_healthy R h s)
    configure :
        (s : ModelLoadBalancer R) (d : DistributionStrategy)
        → Step s (set_distribution_strategy R d s)

  -- The states after any calls, with the number of surplus ends: `end_request` on an instance that
  -- has no request under way, which the source does not refuse.
  pub data Calls : ℕ → ModelLoadBalancer R → Type 0 where
    initial : Calls 0 init
    next : {n : ℕ} {s t : ModelLoadBalancer R} → Calls n s → Step s t → Calls n t
    surplus :
        {n : ℕ} {s : ModelLoadBalancer R} (m u : String) (time ttft now : Float) (success : Bool)
        (i : ModelInstance R)
        → Calls n s
        → find? (is_named R m u) s.instances ≡ some i
        → i.active_requests ≡ 0
        → Calls (suc n) (end_request R m u time success ttft now s)

  init-IsConsistent : IsConsistent R 0 init
  unfolding get
  init-IsConsistent = record { distinct = tt; grouped = tt; known = tt; loads = λ h host e. cc }

  module _ (n : ℕ) (s : ModelLoadBalancer R) (c : IsConsistent R n s) where
    mark_one-IsConsistent :
        (b : Bool) (m u : String)
        → IsConsistent R n
            (record s { instances = update_instance R (set_health R b) m u s.instances })
    unfolding update_instance
    mark_one-IsConsistent b m u =
        mark-IsConsistent R n b (is_named R m u) s _ refl (λ k e. e) (λ k host e. (host, e, refl)) c

    sicken_host-IsConsistent : (h : String) → IsConsistent R n (mark_host_unhealthy R h s)
    unfolding mark_host_unhealthy
    sicken_host-IsConsistent h = elim (Bool-cases (has h s.hosts)) [
      | inl there ↦ rw there (
          mark-IsConsistent R n false (λ i. str_eq i.host_id h) s _ refl
            (λ k. update_host-has R _ h k s.hosts)
            (λ k host. update_host-idle R _ h k s.hosts host (λ x. refl)) c)
      | inr missing ↦ rw missing c
    ]

    heal_host-IsConsistent : (h : String) → IsConsistent R n (mark_host_healthy R h s)
    unfolding mark_host_healthy
    heal_host-IsConsistent h = record {
      distinct = c.distinct;
      grouped = c.grouped;
      known = All-map_imp _ _ s.instances (λ j. update_host-has R _ h j.host_id s.hosts) c.known;
      loads = λ k host e.
          let (old, found, count) = update_host-idle R _ h k s.hosts host (λ x. refl) e in
          let near = c.loads k old found in (omega arith, omega arith);
    }

    counters-IsConsistent :
        (counters : Dict ℕ) → IsConsistent R n (record s { round_robin_counter = counters })
    counters-IsConsistent counters = record {
      distinct = c.distinct;
      grouped = c.grouped;
      known = c.known;
      loads = c.loads;
    }

    select-IsConsistent :
        (m : String) (d : DistributionStrategy) (pin : Option String) (now : Float)
        → IsConsistent R n (select_instance R s m d pin now).1
    select-IsConsistent m d pin now = elim (Option-cases (select_instance R s m d pin now).0) [
      | inl refused ↦
          let (counters, after) = select_instance_refused R s m d pin now refused in
          rw after (counters-IsConsistent counters)
      | inr (i, selected) ↦
          let (j, counters, _, may, after) = select_instance-MayServe R s m d pin now i selected in
          rw after (
            begin_request-IsConsistent R n now j (record s { round_robin_counter = counters })
              may.registered (counters-IsConsistent counters))
    ]

  Step-IsConsistent :
      {n : ℕ} {s t : ModelLoadBalancer R} → Step s t → IsConsistent R n s → IsConsistent R n t
  unfolding mark_instance_unhealthy mark_instance_healthy mark_host_unhealthy mark_host_healthy
      set_distribution_strategy end_request
  Step-IsConsistent {n} (register s m p u now) c = register-IsConsistent R m p u now n s c
  Step-IsConsistent {n} (select s m d pin now) c = select-IsConsistent n s c m d pin now
  Step-IsConsistent {n} (finish s m u time ttft now success i e busy) c =
      rw (end_request, e)
        (end_on-IsConsistent R n n time success ttft now i s (find?-named R m u s.instances i e)
          (omega arith) (omega arith) c)
  Step-IsConsistent {n} (sicken s m u) c = mark_one-IsConsistent n s c false m u
  Step-IsConsistent {n} (heal s m u) c = mark_one-IsConsistent n s c true m u
  Step-IsConsistent {n} (sicken_host s h) c = sicken_host-IsConsistent n s c h
  Step-IsConsistent {n} (heal_host s h) c = heal_host-IsConsistent n s c h
  Step-IsConsistent {n} (configure s d) c = record {
    distinct = c.distinct;
    grouped = c.grouped;
    known = c.known;
    loads = c.loads;
  }

  pub Calls-IsConsistent : {n : ℕ} {s : ModelLoadBalancer R} → Calls n s → IsConsistent R n s
  unfolding end_request
  Calls-IsConsistent initial = init-IsConsistent
  Calls-IsConsistent (next r st) = Step-IsConsistent st (Calls-IsConsistent r)
  Calls-IsConsistent (surplus {n} {s} m u time ttft now success i r e idle) =
      rw (end_request, e)
        (end_on-IsConsistent R n (suc n) time success ttft now i s
          (find?-named R m u s.instances i e) (omega arith) (omega arith) (Calls-IsConsistent r))

  -- After any calls a host counts no more active requests than its instances do together, and less
  -- only by as many as there were surplus ends, which are ends on an instance without a request
  -- under way; and no two instances have the same model and provider URL. So the counts are equal
  -- where there was no surplus end.
  pub reachable_loads :
      (n : ℕ) (s : ModelLoadBalancer R) (h : String) (host : HostMetrics R)
      → Calls n s
      → get h s.hosts ≡ some host
      → (host.active_requests ≤ host_load R h s.instances)
        × (host_load R h s.instances ≤ host.active_requests + n)
        × Distinct R s.instances
  reachable_loads n s h host r e =
      let c = Calls-IsConsistent r in let near = c.loads h host e in (near.0, near.1, c.distinct)
