-- ===== src/LoadBalancer/Balancer/Marks.antt =====
-- Writes to many instances that keep their names and their loads.
use smol_router.Prelude.{
  ℕ, String, ◌≡◌, refl, ap, ◌∙◌, inl, inr, Bool, true, false, some, List, [], ◌∷◌, map, arith,
  str_eq, if◌then◌else◌, All, All-map_imp, Bool-cases, Dict, get, has,
}
use smol_router.LoadBalancer.Runtime.{Runtime}
use smol_router.LoadBalancer.Types.{HostMetrics, ModelInstance, ModelLoadBalancer}
use smol_router.LoadBalancer.Registry.{is_named}
use smol_router.LoadBalancer.Balancer.{update_host, set_health}
use smol_router.LoadBalancer.Balancer.Loads.Update.{Distinct, host_load, KeepsNames}
use smol_router.LoadBalancer.Balancer.Loads.{update_host-found, IsConsistent}

module _ (R : Runtime) where
  open R use {Float, from_ℕ}

  -- A write to any instances that keeps their names and their loads.
  module _ (g : ModelInstance R → ModelInstance R) (keeps : KeepsNames R g)
      (idle : (i : ModelInstance R) → (g i).active_requests ≡ i.active_requests) where
    All-map_keeps :
        (P : ModelInstance R → Type 0) (l : List (ModelInstance R))
        → ((i : ModelInstance R) → P i → P (g i))
        → All P l
        → All P (map g l)
    All-map_keeps P [] f a = tt
    All-map_keeps P (i ∷ l) f a = (f i a.0, All-map_keeps P l f a.1)

    Distinct-map : (l : List (ModelInstance R)) → Distinct R l → Distinct R (map g l)
    Distinct-map [] d = tt
    Distinct-map (i ∷ l) d = (
      rw (keeps.model_id i, keeps.provider_url i)
          (All-map_keeps (λ j. is_named R i.model_id i.provider_url j ≡ false) l
            (λ j e. rw (keeps.model_id j, keeps.provider_url j) e) d.0),
      Distinct-map l d.1,
    )

    host_load-map :
        (h : String) (l : List (ModelInstance R)) → host_load R h (map g l) ≡ host_load R h l
    host_load-map h [] = refl
    host_load-map h (i ∷ l) = rw (keeps.host_id i, idle i) (omega (arith, host_load-map h l))

    pub map-IsConsistent :
        (n : ℕ) (s s' : ModelLoadBalancer R)
        → s'.instances ≡ map g s.instances
        → ((k : String) → has k s.hosts ≡ true → has k s'.hosts ≡ true)
        → ((k : String) (host : HostMetrics R)
            → get k s'.hosts ≡ some host
            → (old : HostMetrics R) × (get k s.hosts ≡ some old)
              × (host.active_requests ≡ old.active_requests))
        → IsConsistent R n s
        → IsConsistent R n s'
    map-IsConsistent n s s' is keep found c = record {
      distinct = rw is (Distinct-map s.instances c.distinct);
      grouped = rw is (
          All-map_keeps _ s.instances (λ j e. rw (keeps.model_id j, keeps.base_name j) e)
            c.grouped);
      known = rw is (
          All-map_keeps _ s.instances (λ j e. rw (keeps.host_id j) e)
            (All-map_imp _ _ s.instances (λ j. keep j.host_id) c.known));
      loads = λ k host e.
          let (old, there, count) = found k host e in
          let near = c.loads k old there in
          rw (is, host_load-map k s.instances) (omega arith, omega arith);
    }

  -- A change of a host's health keeps what the loads need.
  pub update_host-idle :
      (f : HostMetrics R → HostMetrics R) (h k : String) (hosts : Dict (HostMetrics R))
      (host : HostMetrics R)
      → ((x : HostMetrics R) → (f x).active_requests ≡ x.active_requests)
      → get k (update_host R f h hosts) ≡ some host
      → (old : HostMetrics R) × (get k hosts ≡ some old)
        × (host.active_requests ≡ old.active_requests)
  update_host-idle f h k hosts host same e =
      let (old, there, is_old) = update_host-found R f h k hosts host e in
      (
        old,
        there,
        elim (Bool-cases (str_eq h k)) [
          | inl hit ↦ ap (λ (x : HostMetrics R). x.active_requests) (rw hit at is_old) ∙ same old
          | inr miss ↦ ap (λ (x : HostMetrics R). x.active_requests) (rw miss at is_old)
        ],
      )

  -- `set_health` on the instances that pass a test.
  pub set_health_where : Bool → (ModelInstance R → Bool) → ModelInstance R → ModelInstance R
  set_health_where b t i = if t i then set_health R b i else i

  set_health_where-KeepsNames :
      (b : Bool) (t : ModelInstance R → Bool) → KeepsNames R (set_health_where b t)
  unfolding set_health_where set_health
  set_health_where-KeepsNames b t = record {
    model_id = λ i. ground arith;
    provider_url = λ i. ground arith;
    base_name = λ i. ground arith;
    host_id = λ i. ground arith;
  }

  set_health_where_idle :
      (b : Bool) (t : ModelInstance R → Bool) (i : ModelInstance R)
      → (set_health_where b t i).active_requests ≡ i.active_requests
  unfolding set_health_where set_health
  set_health_where_idle b t i = ground arith

  -- Marking any instances, and a host or none, as healthy or not.
  pub mark-IsConsistent :
      (n : ℕ) (b : Bool) (t : ModelInstance R → Bool) (s s' : ModelLoadBalancer R)
      → s'.instances ≡ map (λ i. if t i then set_health R b i else i) s.instances
      → ((k : String) → has k s.hosts ≡ true → has k s'.hosts ≡ true)
      → ((k : String) (host : HostMetrics R)
          → get k s'.hosts ≡ some host
          → (old : HostMetrics R) × (get k s.hosts ≡ some old)
            × (host.active_requests ≡ old.active_requests))
      → IsConsistent R n s
      → IsConsistent R n s'
  unfolding set_health_where
  mark-IsConsistent n b t =
      map-IsConsistent (set_health_where b t) (set_health_where-KeepsNames b t)
        (set_health_where_idle b t) n
