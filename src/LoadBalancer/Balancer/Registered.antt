-- ===== src/LoadBalancer/Balancer/Registered.antt =====
-- Registration keeps the instances distinct and the loads right.
use smol_router.Prelude.{
  ℕ, String, ◌≡◌, refl, ap, ◌∙◌, inl, inr, true, false, none, some, List, [], ◌∷◌, ◌++◌, arith,
  str_eq, eq_iff, filter, All, All-append, All-map_imp, Bool-cases, Option-cases, Dict, get, put,
  has, get-put, sum_of-append, is_empty,
}
use smol_router.LoadBalancer.Names.{parse_model_name}
use smol_router.LoadBalancer.Runtime.{Runtime}
use smol_router.LoadBalancer.Types.{HostMetrics, ModelInstance, ModelLoadBalancer}
use smol_router.LoadBalancer.Registry.{
  get_host_id, is_named, in_group, new_host, new_instance, register_host, add_instance,
}
use smol_router.LoadBalancer.Balancer.{register_model_instance}
use smol_router.LoadBalancer.Balancer.Loads.Update.{Distinct, load_on, host_load, is_named_comm}
use smol_router.LoadBalancer.Balancer.Loads.{IsNear, IsConsistent}

module _ (R : Runtime) where
  open R use {Float, from_ℕ}

  fresh_of_empty :
      (m u : String) (l : List (ModelInstance R))
      → All (λ i. i.base_name ≡ (parse_model_name i.model_id).0) l
      → is_empty (filter (is_named R m u) (filter (in_group R (parse_model_name m).0) l)) ≡ true
      → All (λ j. is_named R m u j ≡ false) l
  fresh_of_empty m u [] a e = tt
  fresh_of_empty m u (j ∷ l) a e = elim (Bool-cases (is_named R m u j)) [
    | inl hit ↦ absurd (
        let same : j.model_id ≡ m = ground (arith, eq_iff j.model_id m) in
        let base : j.base_name ≡ (parse_model_name m).0 =
          a.0 ∙ ap (λ (x : String). (parse_model_name x).0) same in
        ground (arith, eq_iff j.base_name (parse_model_name m).0))
    | inr miss ↦ (miss, fresh_of_empty m u l a.1 (ground arith))
  ]

  Distinct-append :
      (l : List (ModelInstance R)) (i : ModelInstance R)
      → Distinct R l
      → All (λ j. is_named R i.model_id i.provider_url j ≡ false) l
      → Distinct R (l ++ i ∷ [])
  Distinct-append [] i d a = (tt, tt)
  Distinct-append (j ∷ l) i d a = (
    All-append (λ k. is_named R j.model_id j.provider_url k ≡ false) l (i ∷ []) d.0
        (is_named_comm R i j a.0, tt),
    Distinct-append l i d.1 a.1,
  )

  host_load_unknown :
      (h : String) (hosts : Dict (HostMetrics R)) (l : List (ModelInstance R))
      → get h hosts ≡ none
      → All (λ i. has i.host_id hosts ≡ true) l
      → host_load R h l ≡ 0
  host_load_unknown h hosts [] e a = refl
  host_load_unknown h hosts (i ∷ l) e a = elim (Bool-cases (str_eq i.host_id h)) [
    | inl same ↦ absurd (
        let here : i.host_id ≡ h = (eq_iff i.host_id h).0 same in
        let known = rw here at (a.0) in ground arith)
    | inr other ↦ rw other (omega (arith, host_load_unknown h hosts l e a.1))
  ]

  module _ (m p u : String) (now : Float) where
    register_host-has :
        (k : String) (hosts : Dict (HostMetrics R))
        → has k hosts ≡ true
        → has k (register_host R u now hosts) ≡ true
    unfolding register_host
    register_host-has k hosts known =
        let hid = get_host_id R u in ground (arith, get-put hid k (new_host R hid u now) hosts)

    register_host_own :
        (hosts : Dict (HostMetrics R)) → has (get_host_id R u) (register_host R u now hosts) ≡ true
    unfolding register_host
    register_host_own hosts =
        let hid = get_host_id R u in
        ground (arith, get-put hid hid (new_host R hid u now) hosts, eq_iff hid hid)

    register_host-loads :
        (n : ℕ) (hosts : Dict (HostMetrics R)) (l : List (ModelInstance R))
        → All (λ i. has i.host_id hosts ≡ true) l
        → ((h : String) (host : HostMetrics R)
            → get h hosts ≡ some host
            → IsNear R n host (host_load R h l))
        → (h : String) (host : HostMetrics R) → get h (register_host R u now hosts) ≡ some host
        → IsNear R n host (host_load R h l)
    unfolding register_host
    register_host-loads n hosts l known loads h host e =
        let hid = get_host_id R u in
        elim (Option-cases (get hid hosts)) [
          | inl missing ↦
              let found : get h (put hid (new_host R hid u now) hosts) ≡ some host = ground arith in
              elim (Bool-cases (str_eq hid h)) [
                | inl same ↦
                    let here : hid ≡ h = (eq_iff hid h).0 same in
                    let zero_load = host_load_unknown hid hosts l missing known in
                    let total : host_load R h l ≡ 0 = rw (← here) zero_load in
                    ground (arith, get-put hid h (new_host R hid u now) hosts)
                | inr other ↦
                    loads h host (ground (arith, get-put hid h (new_host R hid u now) hosts))
              ]
          | inr (old, there) ↦ loads h host (ground arith)
        ]

    pub register-IsConsistent :
        (n : ℕ) (s : ModelLoadBalancer R)
        → IsConsistent R n s
        → IsConsistent R n (register_model_instance R m p u now s)
    unfolding register_model_instance add_instance
    register-IsConsistent n s c =
        let group = filter (in_group R (parse_model_name m).0) s.instances in
        elim (Bool-cases (is_empty (filter (is_named R m u) group))) [
          | inl fresh ↦ rw fresh (record {
            distinct =
                Distinct-append s.instances (new_instance R m p u) c.distinct
                  (fresh_of_empty m u s.instances c.grouped fresh);
            grouped = All-append _ s.instances _ c.grouped (refl, tt);
            known =
                All-append _ s.instances _
                  (All-map_imp _ _ s.instances (λ i. register_host-has i.host_id s.hosts) c.known)
                  (register_host_own s.hosts, tt);
            loads = λ h host e.
                let old = register_host-loads n s.hosts s.instances c.known c.loads h host e in
                let both = sum_of-append (load_on R h) s.instances (new_instance R m p u ∷ []) in
                ground arith;
          })
          | inr present ↦ rw present (record {
            distinct = c.distinct;
            grouped = c.grouped;
            known = All-map_imp _ _ s.instances (λ i. register_host-has i.host_id s.hosts) c.known;
            loads = register_host-loads n s.hosts s.instances c.known c.loads;
          })
        ]
