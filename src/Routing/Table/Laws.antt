-- ===== src/Routing/Table/Laws.antt =====
-- What a route is found to be.
use smol_router.Prelude.{
  String, ◌≡◌, ap, ◌∙◌, ◌≢◌, ◌⊎◌, inl, inr, Bool, true, false, Option, none, some, List, [], ◌∷◌,
  arith, Dict, get, get-put, Bool-cases, Option-cases, Result-cases, ok,
}
use smol_router.Routing.Table.{
  UpstreamInstance, InstanceConfig, Route, RouterConfig, SmartRouter, present, build_all, put_alias,
  load_aliases, new_router, route_matches, Target, default_target, first_route, find_route,
}

-- No alias of the table is without instances.
abbrev pub HasTargets : Dict (List UpstreamInstance) → Type 0
HasTargets aliases = (name : String) → get name aliases ≢ some []

no_aliases : HasTargets []
unfolding get
no_aliases name e = cc

put_alias-HasTargets :
    (name : String) (l : List UpstreamInstance) (aliases : Dict (List UpstreamInstance))
    → HasTargets aliases
    → HasTargets (put_alias name l aliases)
put_alias-HasTargets name [] aliases h j e = h j e
put_alias-HasTargets name (i ∷ l) aliases h j e =
    h j (ground (arith, get-put name j (i ∷ l) aliases))

load_aliases-HasTargets :
    (servers : Dict String) (configs : Dict (List InstanceConfig))
    (aliases : Dict (List UpstreamInstance))
    → HasTargets aliases
    → HasTargets (load_aliases servers configs aliases)
unfolding load_aliases
load_aliases-HasTargets servers [] aliases h = h
load_aliases-HasTargets servers ((name, l) ∷ configs) aliases h =
    load_aliases-HasTargets servers configs _
      (put_alias-HasTargets name (build_all servers l) aliases h)

module _ (search : String → String → Option Bool) (source_host model : String) where
  -- The first route of the list that matches and names an upstream, behind routes that do not.
  pub data Follows : List Route → Route → String → Type 0 where
    here :
        (route : Route) (routes : List Route) (upstream : String)
        → route_matches search route.criteria source_host model ≡ ok true
        → present route.upstream ≡ some upstream
        → Follows (route ∷ routes) route upstream
    mismatch :
        {route : Route} {routes : List Route} {upstream : String} (passed : Route)
        → route_matches search passed.criteria source_host model ≡ ok false
        → Follows routes route upstream
        → Follows (passed ∷ routes) route upstream
    idle :
        {route : Route} {routes : List Route} {upstream : String} (passed : Route)
        → route_matches search passed.criteria source_host model ≡ ok true
        → present passed.upstream ≡ none
        → Follows routes route upstream
        → Follows (passed ∷ routes) route upstream

  -- No route of the list matches and names an upstream.
  pub data Ignored : List Route → Type 0 where
    done : Ignored []
    skip :
        {routes : List Route} (passed : Route)
        → (route_matches search passed.criteria source_host model ≡ ok false)
          ⊎ (present passed.upstream ≡ none)
        → Ignored routes
        → Ignored (passed ∷ routes)

  abbrev pub Decided : SmartRouter → List Route → Target → Type 0
  Decided r routes target =
      ((route : Route) × (upstream : String) × Follows routes route upstream
        × (target
            ≡ (record { name = "route"; url = upstream; model = route.model } ∷ [], route.model)))
      ⊎ (Ignored routes × (target ≡ default_target r))

  Decided-pass :
      (r : SmartRouter) (passed : Route) (routes : List Route) (target : Target)
      → (route_matches search passed.criteria source_host model ≡ ok false)
        ⊎ ((route_matches search passed.criteria source_host model ≡ ok true)
            × (present passed.upstream ≡ none))
      → Decided r routes target
      → Decided r (passed ∷ routes) target
  Decided-pass r passed routes target why (inl (route, upstream, found, e)) = inl (
    route,
    upstream,
    elim why [ inl miss ↦ mismatch passed miss found | inr h ↦ idle passed h.0 h.1 found ],
    e,
  )
  Decided-pass r passed routes target why (inr (ignored, e)) =
      inr (skip passed (elim why [ inl miss ↦ inl miss | inr h ↦ inr h.1 ]) ignored, e)

  first_route-Decided :
      (r : SmartRouter) (routes : List Route) (target : Target)
      → first_route search r routes source_host model ≡ ok target
      → Decided r routes target
  unfolding first_route
  first_route-Decided r [] target h = inr (done, ground arith)
  first_route-Decided r (route ∷ routes) target h =
      elim (Result-cases (route_matches search route.criteria source_host model)) [
        | inl (e, failed) ↦ absurd (let clash = rw failed at h in cc)
        | inr (b, matched) ↦ elim (Bool-cases b) [
          | inl yes_b ↦
              let hit = matched ∙ ap ok yes_b in
              elim (Option-cases (present route.upstream)) [
                | inl no_upstream ↦
                    Decided-pass r route routes target (inr (hit, no_upstream))
                      (first_route-Decided r routes target (rw (hit, no_upstream) at h))
                | inr (upstream, names) ↦
                    let found = rw (hit, names) at h in
                    inl (route, upstream, here route routes upstream hit names, ground arith)
              ]
          | inr no_b ↦
              let miss = matched ∙ ap ok no_b in
              Decided-pass r route routes target (inl miss)
                (first_route-Decided r routes target (rw miss at h))
        ]
      ]

  -- A route that is found is that of an alias with at least one instance, with no model for the
  -- whole request; or the model is no alias, and it is the first route that matches and names an
  -- upstream, with the model of that route; or there is none such either, and it is the default
  -- upstream. The aliases are those of any configuration.
  pub find_route_lem :
      (config : RouterConfig) (default_upstream : String) (target : Target)
      → find_route search (new_router config default_upstream) source_host model ≡ ok target
      → ((i : UpstreamInstance) × (is : List UpstreamInstance) × (get model
              (new_router config default_upstream).aliases
            ≡ some (i ∷ is))
          × (target ≡ (i ∷ is, none)))
        ⊎ ((get model (new_router config default_upstream).aliases ≡ none)
            × Decided (new_router config default_upstream) config.routes target)
  unfolding find_route new_router
  find_route_lem config default_upstream target h =
      let aliases = load_aliases config.servers config.aliases [] in
      elim (Option-cases (get model aliases)) [
        | inl missing ↦ inr (
          missing,
          first_route-Decided (new_router config default_upstream) config.routes target
              (rw missing at h),
        )
        | inr ([], found) ↦
            absurd (load_aliases-HasTargets config.servers config.aliases [] no_aliases model found)
        | inr (i ∷ is, found) ↦ inl (i, is, found, let same = rw found at h in ground arith)
      ]
