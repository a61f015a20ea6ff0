-- ===== src/Routing/Table.antt =====
-- smolrouter/routing.py: the configuration of `SmartRouter`, and `find_route`.
pub mod Laws
use Prim.Native.Char.{code}
use Prim.Native.String.{[], ◌∷◌}
use smol_router.Prelude.{
  ℕ, String, Bool, true, false, not, ◌&&◌, ◌||◌, ◌==◌, Option, none, some, List, str_eq,
  if◌then◌else◌, Dict, get, put, has, or_else, Result, ok, err, ◌>>=◌,
}
use smol_router.Access.Patterns.{is_regex, inner}

pub record UpstreamInstance : Type 0 where
  pub name : String
  pub url : String
  pub model : Option String

-- The entry of an instance: a text, a mapping with the three keys that are read, or something else.
pub data InstanceConfig : Type 0 where
  reference : String → InstanceConfig
  described : (server url model : Option String) → InstanceConfig
  unusable : InstanceConfig

pub record MatchCriteria : Type 0 where
  pub source_host : Option String
  pub model : Option String

pub record Route : Type 0 where
  pub criteria : MatchCriteria
  pub upstream : Option String
  pub model : Option String

pub record RouterConfig : Type 0 where
  pub routes : List Route
  pub servers : Dict String
  -- the `instances` of each alias
  pub aliases : Dict (List InstanceConfig)

pub record SmartRouter : Type 0 where
  pub default_upstream : String
  pub aliases : Dict (List UpstreamInstance)
  pub routes : List Route

-- `s.split("/", 1)` where `s` has a "/"
unfoldable pub split_first : ℕ → String → Option (String × String)
split_first c [] = none
split_first c (x ∷ s) =
    let rest = split_first c s in
    if code x == c then some ([], s) else elim rest [ none ↦ none | some p ↦ some (x ∷ p.0, p.1) ]

-- The text, unless it is missing or empty.
abbrev pub present : Option String → Option String
present none = none
present (some s) = if str_eq s "" then none else some s

abbrev pub at_server : String → Option String → Option String → Option UpstreamInstance
at_server server_name none model = none
at_server server_name (some url) model =
    some (record { name = server_name; url = url; model = model })

abbrev pub refer : Dict String → String → Option (String × String) → Option UpstreamInstance
refer servers text none = at_server text (get text servers) none
refer servers text (some (server_name, model)) =
    at_server server_name (get server_name servers) (some model)

-- `url`, or the URL of the server where the entry gives none
abbrev pub url_of : Dict String → Option String → Option String → Option String
url_of servers server (some url) = some url
url_of servers none none = none
url_of servers (some server_name) none = present (get server_name servers)

abbrev pub describe : Option String → Option String → Option String → Option UpstreamInstance
describe server none model = none
describe server (some url) model =
    some (record { name = or_else server url; url = url; model = model })

-- `_build_upstream_instance`
unfoldable pub build_upstream_instance : Dict String → InstanceConfig → Option UpstreamInstance
build_upstream_instance servers (reference text) = refer servers text (split_first b'/' text)
build_upstream_instance servers (described server url model) =
    describe (present server) (url_of servers (present server) (present url)) model
build_upstream_instance servers unusable = none

abbrev pub cons_some : Option UpstreamInstance → List UpstreamInstance → List UpstreamInstance
cons_some none l = l
cons_some (some i) l = List.◌∷◌ i l

unfoldable pub build_all : Dict String → List InstanceConfig → List UpstreamInstance
build_all servers List.[] = List.[]
build_all servers (List.◌∷◌ c configs) =
    cons_some (build_upstream_instance servers c) (build_all servers configs)

abbrev pub put_alias :
    String → List UpstreamInstance → Dict (List UpstreamInstance) → Dict (List UpstreamInstance)
put_alias alias_name List.[] aliases = aliases
put_alias alias_name (List.◌∷◌ i l) aliases = put alias_name (List.◌∷◌ i l) aliases

-- The aliases that have an instance at all.
unfoldable pub load_aliases :
    Dict String
    → Dict (List InstanceConfig)
    → Dict (List UpstreamInstance)
    → Dict (List UpstreamInstance)
load_aliases servers List.[] aliases = aliases
load_aliases servers (List.◌∷◌ (alias_name, configs) more) aliases =
    load_aliases servers more (put_alias alias_name (build_all servers configs) aliases)

-- `__init__` and `_load_config`
unfoldable pub new_router : RouterConfig → String → SmartRouter
new_router config default_upstream = record {
  default_upstream = default_upstream;
  aliases = load_aliases config.servers config.aliases List.[];
  routes = config.routes;
}

-- The exception of `re.search` on a pattern that does not compile
pub data RouteError : Type 0 where
  bad_pattern : RouteError

-- The instances to try in order, and the model that the route sets.
abbrev pub Target : Type 0
Target = List UpstreamInstance × Option String

abbrev pub default_target : SmartRouter → Target
default_target r =
    (List.◌∷◌ (record { name = "default"; url = r.default_upstream; model = none }) List.[], none)

-- `re.search(p, s)`, or `none` for an exception
module _ (search : String → String → Option Bool) where
  abbrev pub searched : Option Bool → Result RouteError Bool
  searched none = err bad_pattern
  searched (some b) = ok b

  abbrev pub model_matches : Option String → String → Result RouteError Bool
  model_matches none model = ok true
  model_matches (some pattern) model =
      if is_regex pattern
      then searched (search (inner pattern) model)
      else ok (str_eq model pattern)

  abbrev pub host_matches : Option String → String → Bool
  host_matches none source_host = true
  host_matches (some host) source_host = str_eq source_host host

  unfoldable pub route_matches : MatchCriteria → String → String → Result RouteError Bool
  route_matches c source_host model =
      if host_matches c.source_host source_host then model_matches c.model model else ok false

  -- What a route that matches decides: its upstream, or nothing where it names none.
  abbrev pub follow :
      Option String → Option String → Result RouteError Target → Result RouteError Target
  follow none model further = further
  follow (some upstream) model further =
      ok (List.◌∷◌ (record { name = "route"; url = upstream; model = model }) List.[], model)

  abbrev pub follow_if :
      Result RouteError Bool → Route → Result RouteError Target → Result RouteError Target
  follow_if (err e) route further = err e
  follow_if (ok true) route further = follow (present route.upstream) route.model further
  follow_if (ok false) route further = further

  unfoldable pub first_route : SmartRouter → List Route → String → String → Result RouteError Target
  first_route r List.[] source_host model = ok (default_target r)
  first_route r (List.◌∷◌ route routes) source_host model =
      follow_if (route_matches route.criteria source_host model) route
        (first_route r routes source_host model)

  abbrev pub alias_or :
      Option (List UpstreamInstance) → Result RouteError Target → Result RouteError Target
  alias_or none further = further
  alias_or (some instances) further = ok (instances, none)

  unfoldable pub find_route : SmartRouter → String → String → Result RouteError Target
  find_route r source_host model =
      alias_or (get model r.aliases) (first_route r r.routes source_host model)

-- The global router, made at its first use: `get_smart_router` and `reload_router_config`.
unfoldable pub get_smart_router :
    RouterConfig → String → Option SmartRouter → SmartRouter × Option SmartRouter
get_smart_router config default_upstream none =
    let r = new_router config default_upstream in (r, some r)
get_smart_router config default_upstream (some r) = (r, some r)

unfoldable pub reload_router_config :
    RouterConfig → String → Option SmartRouter → Option SmartRouter
reload_router_config config default_upstream old = some (new_router config default_upstream)
