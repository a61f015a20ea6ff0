-- ===== src/LoadBalancer/Balancer/Loads.antt =====
-- The load that a host carries is the load of its instances, in every reachable state.
pub mod Update
use smol_router.Prelude.{
  ℕ, zero, suc, ◌+◌, ◌-◌, ◌≤◌, ◌<◌, String, ◌≡◌, refl, sym, ap, ◌∙◌, ◌≢◌, ◌⊎◌, inl, inr, Bool, true,
  false, not, ◌&&◌, Option, none, some, List, [], ◌∷◌, ◌++◌, map, arith, str_eq, eq_iff,
  if◌then◌else◌, filter, find?, All, All-append, All-map_imp, In, All-of_In, In-All, In-filter,
  Bool-cases, Option-cases, Dict, get, put, has, get-put, sum_of, sum_of-append, is_empty,
}
use smol_router.LoadBalancer.Names.{parse_model_name}
use smol_router.LoadBalancer.Runtime.{Runtime}
use smol_router.LoadBalancer.Types.{
  DistributionStrategy, spread_all_hosts, HostMetrics, ModelInstance, LoadBalancerStats,
  ModelLoadBalancer,
}
use smol_router.LoadBalancer.Registry.{
  get_host_id, is_named, in_group, new_host, new_instance, register_host, add_instance,
}
use smol_router.LoadBalancer.Metrics.{
  update_instance_metrics, judge_host, update_host_metrics, count_result,
}
use smol_router.LoadBalancer.Balancer.{
  register_model_instance, get_available_instances, update_instance, update_host, start,
  start_on_host, offered_by, begin_request, take_first, select_instance, finish, end_on,
  end_request, set_health, mark_instance_unhealthy, mark_instance_healthy, mark_host_unhealthy,
  mark_host_healthy, set_distribution_strategy,
}
use smol_router.LoadBalancer.Balancer.Health.{select_instance-MayServe}
use Update.{
  Distinct, load_on, host_load, KeepsNames, find?-named, host_load-update, load_on-le, All-update,
  Distinct-update,
}

module _ (R : Runtime) where
  open R use {Float, from_ℕ}

  -- The writes of the methods, each with what it does to the names and to the load.
  start-KeepsNames : (now : Float) → KeepsNames R (start R now)
  unfolding start
  start-KeepsNames now = record {
    model_id = λ i. refl;
    provider_url = λ i. refl;
    base_name = λ i. refl;
    host_id = λ i. refl;
  }

  module _ (time : Float) (success : Bool) (ttft : Float) where
    pub finish-KeepsNames : KeepsNames R (finish R time success ttft)
    unfolding finish update_instance_metrics count_result
    finish-KeepsNames = record {
      model_id = λ i. ground arith;
      provider_url = λ i. ground arith;
      base_name = λ i. ground arith;
      host_id = λ i. ground arith;
    }

    pub finish_active :
        (i : ModelInstance R)
        → (finish R time success ttft i).active_requests ≡ i.active_requests - 1
    unfolding finish update_instance_metrics count_result
    finish_active i = ground arith

    host_active :
        (now : Float) (host : HostMetrics R)
        → (update_host_metrics R time success ttft now host).active_requests
          ≡ host.active_requests - 1
    unfolding update_host_metrics judge_host
    host_active now host = ground arith

  -- The hosts after a write to one of them: a host that is found is an old one or the written one.
  pub update_host-found :
      (f : HostMetrics R → HostMetrics R) (h k : String) (hosts : Dict (HostMetrics R))
      (host : HostMetrics R)
      → get k (update_host R f h hosts) ≡ some host
      → (old : HostMetrics R) × (get k hosts ≡ some old)
        × (host ≡ (if str_eq h k then f old else old))
  unfolding update_host
  update_host-found f h k hosts host e = elim (Option-cases (get h hosts)) [
    | inl missing ↦ elim (Bool-cases (str_eq h k)) [
      | inl same ↦ absurd (
          let here : h ≡ k = (eq_iff h k).0 same in
          let found : get k hosts ≡ some host = ground arith in
          let lost = rw here at missing in ground arith)
      | inr other ↦ rw other (host, ground arith, refl)
    ]
    | inr (old, found) ↦
        let after : get k (put h (f old) hosts) ≡ some host = ground arith in
        elim (Bool-cases (str_eq h k)) [
          | inl same ↦
              let here : h ≡ k = (eq_iff h k).0 same in
              rw same (old, ground arith, ground (arith, get-put h k (f old) hosts))
          | inr other ↦ rw other (host, ground (arith, get-put h k (f old) hosts), refl)
        ]
  ]

  pub update_host-has :
      (f : HostMetrics R → HostMetrics R) (h k : String) (hosts : Dict (HostMetrics R))
      → has k hosts ≡ true
      → has k (update_host R f h hosts) ≡ true
  unfolding update_host
  update_host-has f h k hosts known = elim (Option-cases (get h hosts)) [
    | inl missing ↦ rw (missing, update_host) known
    | inr (old, found) ↦ rw (found, update_host, get-put h k (f old) hosts) (ground arith)
  ]

  -- The load is what the host counts, but for at most n that the host counts less.
  abbrev pub IsNear : ℕ → HostMetrics R → ℕ → Type 0
  IsNear n host load = (host.active_requests ≤ load) × (load ≤ host.active_requests + n)

  -- What every method keeps: no instance is registered twice, every instance has a host entry, and
  -- the active requests of a host are those of its instances together, but for at most n.
  pub record IsConsistent (n : ℕ) (s : ModelLoadBalancer R) : Type 0 where
    pub distinct : Distinct R s.instances
    pub grouped : All (λ i. i.base_name ≡ (parse_model_name i.model_id).0) s.instances
    pub known : All (λ i. has i.host_id s.hosts ≡ true) s.instances
    pub loads :
        (h : String) (host : HostMetrics R)
        → get h s.hosts ≡ some host
        → IsNear n host (host_load R h s.instances)

  -- A write to one instance, with a write to its host that changes its count by as much, or by one
  -- more.
  module _ (n n' : ℕ) (s s' : ModelLoadBalancer R) (i : ModelInstance R)
      (f : ModelInstance R → ModelInstance R) (g : HostMetrics R → HostMetrics R) where
    write-IsConsistent :
        KeepsNames R f
        → n ≤ n'
        → ((host : HostMetrics R) (load load' : ℕ)
            → i.active_requests ≤ load
            → IsNear n host load
            → load' + i.active_requests ≡ load + (f i).active_requests
            → IsNear n' (g host) load')
        → s'.instances ≡ update_instance R f i.model_id i.provider_url s.instances
        → s'.hosts ≡ update_host R g i.host_id s.hosts
        → In i s.instances
        → IsConsistent n s
        → IsConsistent n' s'
    write-IsConsistent keeps more shift is hs m c = record {
      distinct = rw is (Distinct-update R f keeps i.model_id i.provider_url s.instances c.distinct);
      grouped = rw is (
          All-update R f keeps i.model_id i.provider_url _ s.instances
            (λ j e. rw (keeps.model_id j, keeps.base_name j) e) c.grouped);
      known =
          rw (is, hs)
            (All-update R f keeps i.model_id i.provider_url _ s.instances
              (λ j e. rw (keeps.host_id j) e)
              (All-map_imp _ _ s.instances (λ j. update_host-has g i.host_id j.host_id s.hosts)
                c.known));
      loads = λ h host e.
          let (old, found, is_old) = update_host-found g i.host_id h s.hosts host (rw hs at e) in
          let before = c.loads h old found in
          let change = host_load-update R f h i s.instances c.distinct m in
          let below = load_on-le R h i s.instances m in
          let same_host = keeps.host_id i in
          rw is (elim (Bool-cases (str_eq i.host_id h)) [
            | inl same ↦
                let old_host : host ≡ g old = rw same at is_old in
                let own : load_on R h i ≡ i.active_requests = rw same in
                let own' : load_on R h (f i) ≡ (f i).active_requests = rw (same_host, same) in
                rw old_host
                  (shift old (host_load R h s.instances) _ (omega arith) before (omega arith))
            | inr other ↦
                let old_host : host ≡ old = rw other at is_old in
                let count = ap (λ (x : HostMetrics R). x.active_requests) old_host in
                let own : load_on R h i ≡ 0 = rw other in
                let own' : load_on R h (f i) ≡ 0 = rw (same_host, other) in
                (omega arith, omega arith)
          ]);
    }

  pub begin_request-IsConsistent :
      (n : ℕ) (now : Float) (i : ModelInstance R) (s : ModelLoadBalancer R)
      → In i s.instances
      → IsConsistent n s
      → IsConsistent n (begin_request R now i s)
  unfolding begin_request start start_on_host
  begin_request-IsConsistent n now i s m c =
      write-IsConsistent n n s (begin_request R now i s) i (start R now) (start_on_host R)
        (start-KeepsNames now) (omega arith)
        (λ host load load' le near e. (omega arith, omega arith)) refl refl m c

  -- The end of a request on an instance: the counts stay as near as they were if the instance has a
  -- request under way, and else move apart by one at most.
  pub end_on-IsConsistent :
      (n n' : ℕ) (time : Float) (success : Bool) (ttft now : Float) (i : ModelInstance R)
      (s : ModelLoadBalancer R)
      → In i s.instances
      → n ≤ n'
      → n + 1 ≤ n' + i.active_requests
      → IsConsistent n s
      → IsConsistent n' (end_on R (some i) time success ttft now s)
  unfolding end_on
  end_on-IsConsistent n n' time success ttft now i s m more enough c =
      write-IsConsistent n n' s (end_on R (some i) time success ttft now s) i
        (finish R time success ttft) (update_host_metrics R time success ttft now)
        (finish-KeepsNames time success ttft) more
        (λ host load load' le near e.
          let of_i = finish_active time success ttft i in
          let of_host = host_active time success ttft now host in (omega arith, omega arith))
        refl refl m c
