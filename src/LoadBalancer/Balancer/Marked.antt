-- ===== src/LoadBalancer/Balancer/Marked.antt =====
-- A host that was marked unhealthy, over any further calls.
use smol_router.Prelude.{
  String, ◌≡◌, ◌≢◌, refl, inl, inr, Bool, true, false, Option, some, List, [], ◌∷◌, map, arith,
  str_eq, if◌then◌else◌, filter, find?, is_empty, All, All-append, In-All, Bool-cases, Option-cases,
  has,
}
use smol_router.LoadBalancer.Names.{parse_model_name}
use smol_router.LoadBalancer.Runtime.{Runtime}
use smol_router.LoadBalancer.Types.{DistributionStrategy, ModelInstance, ModelLoadBalancer}
use smol_router.LoadBalancer.Registry.{get_host_id, is_named, in_group, new_instance, add_instance}
use smol_router.LoadBalancer.Metrics.{update_instance_metrics, count_result}
use smol_router.LoadBalancer.Balancer.{
  register_model_instance, update_instance, start, begin_request, select_instance, finish, end_on,
  end_request, set_health, mark_instance_unhealthy, mark_instance_healthy, mark_host_unhealthy,
  mark_host_healthy, set_distribution_strategy,
}
use smol_router.LoadBalancer.Balancer.Select.{select_instance_refused}
use smol_router.LoadBalancer.Balancer.Health.{
  select_instance-MayServe, NotServing, mark_host-NotServing,
}

module _ (R : Runtime) (h : String) where
  open R use {Float}

  -- No instance of that name is on the host.
  abbrev pub Elsewhere : String → String → ModelLoadBalancer R → Type 0
  Elsewhere m u s = All (λ i. is_named R m u i ≡ true → i.host_id ≢ h) s.instances

  -- The states after the host is marked unhealthy and then any calls, but for two: no further
  -- instance is registered on the host, and no instance of it is marked healthy by itself.
  pub data Marked : ModelLoadBalancer R → Type 0 where
    marked : (s : ModelLoadBalancer R) → has h s.hosts ≡ true → Marked (mark_host_unhealthy R h s)
    then_register :
        {s : ModelLoadBalancer R} (m p u : String) (now : Float)
        → Marked s
        → get_host_id R u ≢ h
        → Marked (register_model_instance R m p u now s)
    then_select :
        {s : ModelLoadBalancer R} (m : String) (d : DistributionStrategy) (pin : Option String)
        (now : Float)
        → Marked s
        → Marked (select_instance R s m d pin now).1
    then_finish :
        {s : ModelLoadBalancer R} (m u : String) (time ttft now : Float) (success : Bool)
        → Marked s
        → Marked (end_request R m u time success ttft now s)
    then_sicken :
        {s : ModelLoadBalancer R} (m u : String)
        → Marked s
        → Marked (mark_instance_unhealthy R m u s)
    then_heal :
        {s : ModelLoadBalancer R} (m u : String)
        → Marked s
        → Elsewhere m u s
        → Marked (mark_instance_healthy R m u s)
    then_sicken_host :
        {s : ModelLoadBalancer R} (k : String) → Marked s → Marked (mark_host_unhealthy R k s)
    then_heal_host :
        {s : ModelLoadBalancer R} (k : String) → Marked s → Marked (mark_host_healthy R k s)
    then_configure :
        {s : ModelLoadBalancer R} (d : DistributionStrategy)
        → Marked s
        → Marked (set_distribution_strategy R d s)

  -- The write makes no instance of the host healthy.
  abbrev Keeps : (ModelInstance R → ModelInstance R) → Type 0
  Keeps f = (i : ModelInstance R) → NotServing R h i → NotServing R h (f i)

  update-NotServing :
      (f : ModelInstance R → ModelInstance R) (m u : String) (l : List (ModelInstance R))
      → Keeps f
      → All (NotServing R h) l
      → All (NotServing R h) (update_instance R f m u l)
  unfolding update_instance
  update-NotServing f m u [] k a = tt
  update-NotServing f m u (i ∷ l) k a = elim (Bool-cases (is_named R m u i)) [
    | inl hit ↦ rw hit (k i a.0, update-NotServing f m u l k a.1)
    | inr miss ↦ rw miss (a.0, update-NotServing f m u l k a.1)
  ]

  start-Keeps : (now : Float) → Keeps (start R now)
  unfolding start
  start-Keeps now i dead = dead

  finish-Keeps : (time : Float) (success : Bool) (ttft : Float) → Keeps (finish R time success ttft)
  unfolding finish update_instance_metrics count_result
  finish-Keeps time success ttft i dead = λ on. (let off = dead (ground arith) in ground arith)

  sicken-Keeps : Keeps (set_health R false)
  unfolding set_health
  sicken-Keeps i dead on = refl

  heal-NotServing :
      (m u : String) (l : List (ModelInstance R))
      → All (λ i. is_named R m u i ≡ true → i.host_id ≢ h) l
      → All (NotServing R h) l
      → All (NotServing R h) (update_instance R (set_health R true) m u l)
  unfolding update_instance set_health
  heal-NotServing m u [] away a = tt
  heal-NotServing m u (i ∷ l) away a = elim (Bool-cases (is_named R m u i)) [
    | inl hit ↦ rw hit (λ on. absurd (away.0 hit on), heal-NotServing m u l away.1 a.1)
    | inr miss ↦ rw miss (a.0, heal-NotServing m u l away.1 a.1)
  ]

  map-NotServing :
      (k : String) (l : List (ModelInstance R))
      → All (NotServing R h) l
      → All (NotServing R h) (map (λ i. if str_eq i.host_id k then set_health R false i else i) l)
  map-NotServing k [] a = tt
  map-NotServing k (i ∷ l) a = elim (Bool-cases (str_eq i.host_id k)) [
    | inl on ↦ rw on (sicken-Keeps i a.0, map-NotServing k l a.1)
    | inr off ↦ rw off (a.0, map-NotServing k l a.1)
  ]

  register-NotServing :
      (m p u : String) (l : List (ModelInstance R))
      → get_host_id R u ≢ h
      → All (NotServing R h) l
      → All (NotServing R h) (add_instance R m p u l)
  unfolding add_instance
  register-NotServing m p u l away a =
      elim (Bool-cases
        (is_empty (filter (is_named R m u) (filter (in_group R (parse_model_name m).0) l)))) [
          | inl fresh ↦ rw fresh (
              All-append (NotServing R h) l (new_instance R m p u ∷ []) a
                (λ on. absurd (away on), tt))
          | inr present ↦ rw present a
        ]

  module _ (s : ModelLoadBalancer R) (a : All (NotServing R h) s.instances) where
    select-NotServing :
        (m : String) (d : DistributionStrategy) (pin : Option String) (now : Float)
        → All (NotServing R h) (select_instance R s m d pin now).1.instances
    unfolding begin_request
    select-NotServing m d pin now = elim (Option-cases (select_instance R s m d pin now).0) [
      | inl refused ↦
          let (counters, after) = select_instance_refused R s m d pin now refused in rw after a
      | inr (i, selected) ↦
          let (j, counters, _, _, after) = select_instance-MayServe R s m d pin now i selected in
          rw after (
            update-NotServing (start R now) j.model_id j.provider_url s.instances (start-Keeps now)
              a)
    ]

    finish-NotServing :
        (m u : String) (time ttft now : Float) (success : Bool)
        → All (NotServing R h) (end_request R m u time success ttft now s).instances
    unfolding end_request end_on
    finish-NotServing m u time ttft now success =
        elim (Option-cases (find? (is_named R m u) s.instances)) [
          | inl missing ↦ rw (end_request, missing) a
          | inr (i, found) ↦
              rw (end_request, found)
                (update-NotServing (finish R time success ttft) i.model_id i.provider_url
                  s.instances (finish-Keeps time success ttft) a)
        ]

    sicken_host-NotServing :
        (k : String) → All (NotServing R h) (mark_host_unhealthy R k s).instances
    unfolding mark_host_unhealthy
    sicken_host-NotServing k = elim (Bool-cases (has k s.hosts)) [
      | inl known ↦ rw known (map-NotServing k s.instances a)
      | inr missing ↦ rw missing a
    ]

  Marked-NotServing : {s : ModelLoadBalancer R} → Marked s → All (NotServing R h) s.instances
  unfolding register_model_instance mark_instance_unhealthy mark_instance_healthy mark_host_healthy
      set_distribution_strategy
  Marked-NotServing (marked s known) = mark_host-NotServing R h s known
  Marked-NotServing (then_register {s} m p u now r away) =
      register-NotServing m p u s.instances away (Marked-NotServing r)
  Marked-NotServing (then_select {s} m d pin now r) =
      select-NotServing s (Marked-NotServing r) m d pin now
  Marked-NotServing (then_finish {s} m u time ttft now success r) =
      finish-NotServing s (Marked-NotServing r) m u time ttft now success
  Marked-NotServing (then_sicken {s} m u r) =
      update-NotServing (set_health R false) m u s.instances sicken-Keeps (Marked-NotServing r)
  Marked-NotServing (then_heal {s} m u r away) =
      heal-NotServing m u s.instances away (Marked-NotServing r)
  Marked-NotServing (then_sicken_host {s} k r) = sicken_host-NotServing s (Marked-NotServing r) k
  Marked-NotServing (then_heal_host k r) = Marked-NotServing r
  Marked-NotServing (then_configure d r) = Marked-NotServing r

  -- After a known host is marked unhealthy and any further calls, which may mark the host healthy
  -- again, no request is sent to it, as long as no instance of it is marked healthy by itself and no
  -- further instance is registered on it.
  pub mark_host-select :
      (s : ModelLoadBalancer R) (model : String) (d : DistributionStrategy) (pin : Option String)
      (now : Float) (i : ModelInstance R)
      → Marked s
      → (select_instance R s model d pin now).0 ≡ some i
      → i.host_id ≢ h
  unfolding start
  mark_host-select s model d pin now i r e on =
      let (j, _, from, may, _) = select_instance-MayServe R s model d pin now i e in
      let dead = In-All (NotServing R h) s.instances (Marked-NotServing r) may.registered in
      let off = dead (ground arith) in let live = may.healthy in ground arith
