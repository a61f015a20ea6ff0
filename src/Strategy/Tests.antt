-- ===== src/Strategy/Tests.antt =====
-- Runs of the resolution of model names on concrete inputs.
use smol_router.Prelude.{
  String, ◌≡◌, refl, inl, ◌⊎◌, true, false, none, some, List, [], ◌∷◌, In, get, ok, sort_by, str_eq,
  put,
}
use smol_router.ModelInfo.{ModelInfo, display_name, matches_request}
use smol_router.LoadBalancer.Names.{split_last}
use smol_router.Access.Patterns.{is_regex}
use smol_router.Strategy.Names.{
  is_space, lstrip, rstrip, strip, ends_with_bracket, split_name, parse_fully_qualified_name,
}
use smol_router.Strategy.Names.Laws.{IsTrimmed}
use smol_router.Strategy.Rules.{
  TextEngine, plain, rule_of, rules_of, load_alias_rules, number_servers, put_all,
  load_provider_priorities, matches, apply, apply_alias_transformations,
}
use smol_router.Strategy.Resolve.{
  SmartModelStrategy, new_strategy, is_part, find_qualified, priority_of, sort_by_provider_priority,
  matches_partially, resolve_name, resolve_model_request,
}
use smol_router.Strategy.Resolve.Laws.{
  IsNamed, resolve_model_request_best, resolve_model_request-none,
  resolve_model_request-display_name,
}

abbrev pub texts : TextEngine
texts = record {
  patterns = record {
    compiles = λ p. true;
    regex_match = λ p s. str_eq p s;
    fnmatch = λ s p. str_eq s p;
  };
  expand = λ p s target. some target;
  lower = λ s. s;
}

abbrev llama_of : String → ModelInfo
llama_of provider_id = record {
  id = "m-1";
  name = "llama";
  provider_id = provider_id;
  provider_type = "openai";
  endpoint = "http://h";
  aliases = [];
}

abbrev slow : ModelInfo
slow = llama_of "slow"

abbrev fast : ModelInfo
fast = llama_of "fast"

abbrev models : List ModelInfo
models = slow ∷ fast ∷ []

abbrev strategy : SmartModelStrategy
strategy = record {
  aliases = record { pattern = "gpt"; target = "llama"; priority = 0 } ∷ [];
  provider_priorities = ("fast", 0) ∷ ("slow", 1) ∷ [];
}

config-loads :
    new_strategy (record {
      model_map = [];
      aliases = ("gpt", plain "llama") ∷ [];
      servers = "fast" ∷ "slow" ∷ [];
      provider_priorities = [];
    })
    ≡ strategy
unfolding new_strategy load_alias_rules load_provider_priorities rule_of rules_of number_servers
    put_all sort_by put
config-loads = refl

name-IsTrimmed : IsTrimmed slow.name
unfolding is_space rstrip
name-IsTrimmed = record { nonempty = refl; at_start = refl; at_end = refl }

provider-IsTrimmed : IsTrimmed slow.provider_id
unfolding is_space rstrip
provider-IsTrimmed = record { nonempty = refl; at_start = refl; at_end = refl }

resolve_model_request-display_name_example :
    (k : ModelInfo) × (resolve_model_request texts strategy (display_name slow) models
      ≡ ok (some k))
    × In k models
    × (k.provider_id ≡ slow.provider_id)
    × (matches_request k slow.name ≡ true)
resolve_model_request-display_name_example =
    resolve_model_request-display_name texts strategy slow models (inl refl) name-IsTrimmed
      provider-IsTrimmed refl

abbrev gpt : String
gpt = "gpt"

gpt-resolves : resolve_model_request texts strategy gpt models ≡ ok (some fast)
unfolding resolve_model_request resolve_name find_qualified parse_fully_qualified_name split_name
    strip lstrip rstrip is_space ends_with_bracket split_last apply_alias_transformations matches
    apply is_regex matches_request display_name sort_by_provider_priority sort_by priority_of get
gpt-resolves = refl

resolve_model_request_best_example :
    (find_qualified (parse_fully_qualified_name gpt) models ≡ some fast)
    ⊎ ((find_qualified (parse_fully_qualified_name gpt) models ≡ none)
        × (name : String) × (apply_alias_transformations texts strategy.aliases gpt ≡ ok name)
        × IsNamed texts strategy name models fast)
resolve_model_request_best_example =
    resolve_model_request_best texts strategy gpt models fast gpt-resolves

abbrev other : String
other = "other"

other-fails : resolve_model_request texts strategy other models ≡ ok none
unfolding resolve_model_request resolve_name find_qualified parse_fully_qualified_name split_name
    strip lstrip rstrip is_space ends_with_bracket split_last apply_alias_transformations matches
    apply is_regex matches_request display_name sort_by_provider_priority sort_by priority_of get
    matches_partially is_part
other-fails = refl

resolve_model_request-none_example :
    (find_qualified (parse_fully_qualified_name other) models ≡ none)
    × (name : String) × (apply_alias_transformations texts strategy.aliases other ≡ ok name)
    × ((j : ModelInfo)
        → In j models
        → (matches_request j name ≡ false) × (matches_partially texts name j ≡ false))
resolve_model_request-none_example =
    resolve_model_request-none texts strategy other models other-fails
