-- ===== src/Access/Tests.antt =====
-- Runs of the access control on concrete inputs, with a pattern engine that compares texts.
use smol_router.Prelude.{
  String, ◌≡◌, refl, inl, inr, true, false, none, some, [], ◌∷◌, filter, In, get, str_eq, eq_iff,
}
use smol_router.ModelInfo.{ModelInfo, display_name, identifiers, DistinctIds}
use smol_router.Access.Patterns.{PatternEngine, Compiled, is_regex, compile}
use smol_router.Access.Ip.{
  Rule, make_rule, matches_ip, find_matching_rule, matches_model_pattern, can_access_model,
}
use smol_router.Access.Ip.Laws.{ip_deny_wins}
use smol_router.Access.Auth.{
  Payload, AuthRules, AuthConfig, many, one, user_id, get_user_roles, find_applicable_rules,
  matches_pattern, can_access_model as auth_can_access_model,
}
use smol_router.Access.Auth.Laws.{user_deny_wins, find_applicable_rules_again}
use smol_router.Access.Control.{
  Client, any_of, AccessControl, by_ip, by_auth, composite, nil, cons, filter_models,
  can_access_model as control_can_access_model,
}
use smol_router.Access.Control.Laws.{filter_models_lem}

abbrev texts : PatternEngine
texts = record {
  compiles = λ p. true;
  regex_match = λ p s. str_eq p s;
  fnmatch = λ s p. str_eq s p;
}

abbrev small : ModelInfo
small = record {
  id = "small-1";
  name = "small";
  provider_id = "a";
  provider_type = "openai";
  endpoint = "http://a";
  aliases = "tiny" ∷ [];
}

abbrev large : ModelInfo
large = record {
  id = "large-1";
  name = "large";
  provider_id = "a";
  provider_type = "openai";
  endpoint = "http://a";
  aliases = [];
}

abbrev address : String
address = "10.0.0.1"

abbrev tiny : String
tiny = "tiny"

abbrev tiny_pattern : Compiled
tiny_pattern = record { pattern = tiny; regex = none }

abbrev rule : Rule
rule = record {
  ip_pattern = record { pattern = address; regex = none };
  allowed_models = [];
  denied_models = tiny_pattern ∷ [];
  allow_all = true;
}

rule-made : make_rule address [] (tiny ∷ []) true ≡ rule
unfolding make_rule compile is_regex
rule-made = refl

rule-found : find_matching_rule texts address (rule ∷ []) ≡ some rule
unfolding find_matching_rule matches_ip
rule-found = refl

tiny-matches : matches_model_pattern texts tiny tiny_pattern ≡ true
unfolding matches_model_pattern
tiny-matches = refl

tiny-In : In tiny (identifiers small)
unfolding identifiers
tiny-In = inr (inr (inr (inl refl)))

ip_deny_wins_example : can_access_model texts (rule ∷ []) address small ≡ false
ip_deny_wins_example =
    ip_deny_wins texts (rule ∷ []) address small rule tiny_pattern tiny rule-found (inl refl)
      tiny-In tiny-matches

abbrev nothing_set : AuthRules
nothing_set = record {
  allowed_models = none;
  denied_models = none;
  allow_all = none;
  others = false;
}

abbrev allow_everything : AuthRules
allow_everything = record nothing_set { allow_all = some true }

abbrev deny_tiny : AuthRules
deny_tiny = record nothing_set { denied_models = some (tiny ∷ []) }

abbrev user : String
user = "u"

abbrev config : AuthConfig
config = record {
  default_rules = nothing_set;
  user_rules = (user, deny_tiny) ∷ [];
  role_rules = ("admin", allow_everything) ∷ [];
}

abbrev payload : Payload
payload = record {
  roles = some (many ("dev" ∷ []));
  role = some (one "admin");
  sub = some user;
  user = none;
  username = none;
}

payload-user : user_id payload ≡ some user
unfolding user_id
payload-user = refl

user-rules : get user config.user_rules ≡ some deny_tiny
unfolding get
user-rules = refl

tiny-hits : matches_pattern texts tiny (identifiers small) ≡ true
unfolding matches_pattern identifiers display_name is_regex
tiny-hits = refl

user_deny_wins_example : auth_can_access_model texts config (some payload) small ≡ false
user_deny_wins_example =
    user_deny_wins texts config payload user deny_tiny (tiny ∷ []) tiny small payload-user refl
      user-rules refl (inl refl) tiny-hits

find_applicable_rules_again_example :
    find_applicable_rules config (get_user_roles payload).1 ≡ find_applicable_rules config payload
find_applicable_rules_again_example = find_applicable_rules_again config payload

abbrev client : Client
client = record { ip = address; auth_payload = some payload }

abbrev either_control : AccessControl
either_control = composite (cons (by_ip (rule ∷ [])) (cons (by_auth config) nil)) any_of

two-DistinctIds : DistinctIds (small ∷ large ∷ [])
two-DistinctIds =
    ((λ e. let same : str_eq "large-1" "small-1" ≡ true = (eq_iff _ _).1 e in cc, tt), (tt, tt))

filter_models_lem_example :
    filter_models texts client either_control (small ∷ large ∷ [])
    ≡ filter (control_can_access_model texts client either_control) (small ∷ large ∷ [])
filter_models_lem_example =
    filter_models_lem texts client either_control (small ∷ large ∷ []) two-DistinctIds
