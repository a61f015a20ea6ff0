-- ===== src/Strategy/Resolve.antt =====
-- smolrouter/strategies.py: `SmartModelStrategy.resolve_model_request`, `SimpleModelStrategy`.
pub mod Laws
use Prim.Native.Char.{code}
use Prim.Native.String.{[], ◌∷◌}
use smol_router.Prelude.{
  ℕ, String, Bool, true, false, ◌&&◌, ◌||◌, ◌==◌, Option, none, some, List, map, str_eq,
  if◌then◌else◌, filter, any, find?, is_empty, Dict, get, or_else, sort_on, Result, ok, err, ◌>>=◌,
}
use smol_router.ModelInfo.{ModelInfo, matches_request}
use smol_router.Strategy.Names.{parse_fully_qualified_name}
use smol_router.Strategy.Rules.{
  TextEngine, AliasRule, AliasError, StrategyConfig, load_alias_rules, load_provider_priorities,
  apply_alias_transformations,
}

pub record SmartModelStrategy : Type 0 where
  pub aliases : List AliasRule
  pub provider_priorities : Dict ℕ

unfoldable pub new_strategy : StrategyConfig → SmartModelStrategy
new_strategy c = record {
  aliases = load_alias_rules c;
  provider_priorities = load_provider_priorities c;
}

abbrev pub starts_with : String → String → Bool
starts_with [] t = true
starts_with (x ∷ s) [] = false
starts_with (x ∷ s) (y ∷ t) = (code x == code y) && starts_with s t

-- `s in t`
unfoldable pub is_part : String → String → Bool
is_part s [] = starts_with s []
is_part s (y ∷ t) = starts_with s (y ∷ t) || is_part s t

abbrev pub head? : List ModelInfo → Option ModelInfo
head? List.[] = none
head? (List.◌∷◌ m l) = some m

-- A model of the provider that the name asks for.
abbrev pub is_qualified : String → String → ModelInfo → Bool
is_qualified model_name provider_id m =
    str_eq m.provider_id provider_id && matches_request m model_name

unfoldable pub find_qualified : Option (String × String) → List ModelInfo → Option ModelInfo
find_qualified none available = none
find_qualified (some (model_name, provider_id)) available =
    find? (is_qualified model_name provider_id) available

unfoldable pub priority_of : SmartModelStrategy → ModelInfo → ℕ
priority_of s m = or_else (get m.provider_id s.provider_priorities) 999

unfoldable pub sort_by_provider_priority : SmartModelStrategy → List ModelInfo → List ModelInfo
sort_by_provider_priority s models = sort_on (priority_of s) models

unfoldable pub get_model_priority_order : SmartModelStrategy → List String
get_model_priority_order s =
    sort_on (λ p. or_else (get p s.provider_priorities) 999) (map (λ e. e.0) s.provider_priorities)

module _ (E : TextEngine) where
  open E use {lower}

  unfoldable pub matches_partially : String → ModelInfo → Bool
  matches_partially requested_model m =
      is_part (lower requested_model) (lower m.name)
      || any (λ alias. is_part (lower requested_model) (lower alias)) m.aliases

  -- Steps 3 to 5: the exact matches, else the partial ones, by provider priority.
  unfoldable pub resolve_name : SmartModelStrategy → String → List ModelInfo → Option ModelInfo
  resolve_name s name available =
      let exact_matches = filter (λ m. matches_request m name) available in
      if is_empty exact_matches
      then head? (sort_by_provider_priority s (filter (matches_partially name) available))
      else head? (sort_by_provider_priority s exact_matches)

  abbrev pub or_resolve :
      Option ModelInfo → Result AliasError (Option ModelInfo) → Result AliasError (Option ModelInfo)
  or_resolve (some m) rest = ok (some m)
  or_resolve none rest = rest

  unfoldable pub resolve_model_request :
      SmartModelStrategy → String → List ModelInfo → Result AliasError (Option ModelInfo)
  resolve_model_request s requested_model available =
      or_resolve (find_qualified (parse_fully_qualified_name requested_model) available) (do
        transformed_name ← apply_alias_transformations E s.aliases requested_model
        ok (resolve_name s transformed_name available))

-- `SimpleModelStrategy.resolve_model_request`
unfoldable pub resolve_simply : Dict String → String → List ModelInfo → Option ModelInfo
resolve_simply aliases requested_model available =
    find? (λ m. matches_request m (or_else (get requested_model aliases) requested_model)) available
