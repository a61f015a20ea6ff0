-- ===== src/Routing/Tests.antt =====
-- Runs of the routing on concrete inputs, over a network on which one server is down.
use smol_router.Prelude.{
  ℕ, ◌+◌, String, ◌≡◌, refl, ◌⊎◌, Bool, Option, none, some, List, [], ◌∷◌, get, put, ok, str_eq,
  if◌then◌else◌,
}
use smol_router.Value.{text}
use smol_router.Access.Patterns.{is_regex}
use smol_router.Routing.Table.{
  UpstreamInstance, reference, described, RouterConfig, SmartRouter, split_first,
  build_upstream_instance, build_all, load_aliases, new_router, route_matches, Target, first_route,
  find_route, get_smart_router, reload_router_config,
}
use smol_router.Routing.Table.Laws.{Decided, find_route_lem}
use smol_router.Routing.Failover.{
  Network, response, connect_error, attempt_of, instance_str, RouteReply, served, try_upstream,
  try_in_turn, route_request,
}
use smol_router.Routing.Failover.Laws.{Ended, route_request_lem}

abbrev search : String → String → Option Bool
search p s = some (str_eq p s)

abbrev config : RouterConfig
config = record {
  routes =
      record {
        criteria = record { source_host = none; model = some "/big/" };
        upstream = some "http://big";
        model = some "big-2";
      }
      ∷ [];
  servers = ("a", "http://a") ∷ ("b", "http://b") ∷ [];
  aliases = ("both", reference "a/m" ∷ described (some "b") none none ∷ reference "c" ∷ []) ∷ [];
}

abbrev at_a : UpstreamInstance
at_a = record { name = "a"; url = "http://a"; model = some "m" }

abbrev at_b : UpstreamInstance
at_b = record { name = "b"; url = "http://b"; model = none }

abbrev router : SmartRouter
router = record {
  default_upstream = "http://d";
  aliases = ("both", at_a ∷ at_b ∷ []) ∷ [];
  routes = config.routes;
}

router-loads : new_router config "http://d" ≡ router
unfolding new_router load_aliases build_all build_upstream_instance split_first get put
router-loads = refl

big-routes :
    find_route search (new_router config "http://d") "h" "big"
    ≡ ok (record { name = "route"; url = "http://big"; model = some "big-2" } ∷ [], some "big-2")
unfolding new_router load_aliases build_all build_upstream_instance split_first get put find_route
    first_route route_matches is_regex
big-routes = refl

abbrev big_target : Target
big_target =
    (record { name = "route"; url = "http://big"; model = some "big-2" } ∷ [], some "big-2")

find_route_lem_example :
    ((i : UpstreamInstance) × (is : List UpstreamInstance) × (get "big"
          (new_router config "http://d").aliases
        ≡ some (i ∷ is))
      × (big_target ≡ (i ∷ is, none)))
    ⊎ ((get "big" (new_router config "http://d").aliases ≡ none)
        × Decided search "h" "big" (new_router config "http://d") config.routes big_target)
find_route_lem_example = find_route_lem search "h" "big" config "http://d" big_target big-routes

-- Server a refuses connections, every other one answers; the state counts the calls.
abbrev half_down : Network
half_down = record {
  State = ℕ;
  post = λ n url payload.
      if str_eq url "http://a/chat"
      then (connect_error "refused", n + 1)
      else (response 200 (ok (text "hello")), n + 1);
}

both-routes : find_route search router "h" "both" ≡ ok (at_a ∷ at_b ∷ [], none)
unfolding find_route get
both-routes = refl

route_request_lem_example :
    (reply : RouteReply × ℕ) × (route_request half_down search router "h" "both" [] "/chat" 0
      ≡ ok reply)
    × Ended half_down [] "/chat" (at_a ∷ at_b ∷ []) [] 502 0 reply
route_request_lem_example =
    route_request_lem half_down [] "/chat" search router "h" "both" 0 (at_a ∷ at_b ∷ []) none
      both-routes

both-served :
    route_request half_down search router "h" "both" [] "/chat" 0
    ≡ ok (served (text "hello") 200 "b(http://b)", 2)
unfolding route_request find_route get try_in_turn try_upstream attempt_of instance_str put
both-served = refl

reload-replaces :
    (get_smart_router config "http://x" (reload_router_config config "http://d" none)).0 ≡ router
unfolding get_smart_router reload_router_config new_router load_aliases build_all
    build_upstream_instance split_first get put
reload-replaces = refl
