-- ===== src/Strategy/Rules.antt =====
-- smolrouter/strategies.py: alias rules and provider priorities, loaded from a configuration whose
-- targets are texts and whose priorities are natural numbers.
use smol_router.Prelude.{
  ℕ, ◌+◌, String, Bool, true, false, ◌&&◌, Option, none, some, List, [], ◌∷◌, ◌++◌, map, str_eq,
  if◌then◌else◌, Dict, put, or_else, sort_on, Result, ok, err,
}
use smol_router.Access.Patterns.{PatternEngine, is_regex, inner}

-- What alias rules and partial matches take from Python beside the patterns.
pub record TextEngine : Type 0 where
  pub patterns : PatternEngine
  -- `re.match(p, s).expand(target)`, where the pattern matches; `none` is an exception
  pub expand : String → String → String → Option String
  -- `s.lower()`
  pub lower : String → String

pub record AliasRule : Type 0 where
  pub pattern : String
  pub target : String
  pub priority : ℕ

-- One entry of `aliases`: a text, a mapping with two keys that are read, or something else, which
-- is skipped.
pub data AliasConfig : Type 0 where
  plain : (target : String) → AliasConfig
  complex : (target : Option String) (priority : Option ℕ) → AliasConfig
  skipped : AliasConfig

pub record StrategyConfig : Type 0 where
  pub model_map : Dict String
  pub aliases : Dict AliasConfig
  pub servers : List String
  pub provider_priorities : Dict ℕ

unfoldable pub rule_of : String → AliasConfig → List AliasRule
rule_of alias_name (plain target) =
    record { pattern = alias_name; target = target; priority = 0 } ∷ []
rule_of alias_name (complex target priority) =
    record {
      pattern = alias_name;
      target = or_else target alias_name;
      priority = or_else priority 0;
    }
    ∷ []
rule_of alias_name skipped = []

unfoldable pub rules_of : Dict AliasConfig → List AliasRule
rules_of [] = []
rules_of ((alias_name, config) ∷ aliases) = rule_of alias_name config ++ rules_of aliases

abbrev pub map_rule : String × String → AliasRule
map_rule e = record { pattern = e.0; target = e.1; priority = 0 }

unfoldable pub load_alias_rules : StrategyConfig → List AliasRule
load_alias_rules c = sort_on (λ r. r.priority) (map map_rule c.model_map ++ rules_of c.aliases)

unfoldable pub number_servers : ℕ → List String → Dict ℕ → Dict ℕ
number_servers i [] priorities = priorities
number_servers i (name ∷ servers) priorities =
    number_servers (i + 1) servers (put name i priorities)

-- `d.update(more)`
unfoldable pub put_all : Dict ℕ → Dict ℕ → Dict ℕ
put_all [] d = d
put_all ((k, v) ∷ more) d = put_all more (put k v d)

unfoldable pub load_provider_priorities : StrategyConfig → Dict ℕ
load_provider_priorities c = put_all c.provider_priorities (number_servers 0 c.servers [])

-- An exception that an alias rule raises.
pub data AliasError : Type 0 where
  bad_pattern bad_template : AliasError

abbrev pub expanded : Option String → Result AliasError String
expanded none = err bad_template
expanded (some s) = ok s

module _ (E : TextEngine) where
  open E use {patterns, expand}

  unfoldable pub matches : AliasRule → String → Result AliasError Bool
  matches rule model_name =
      if is_regex rule.pattern
      then (if patterns.compiles (inner rule.pattern)
          then ok (patterns.regex_match (inner rule.pattern) model_name)
          else err bad_pattern)
      else ok (str_eq model_name rule.pattern)

  -- `apply`, on a name that the rule matches
  unfoldable pub apply : AliasRule → String → Result AliasError String
  apply rule model_name =
      if is_regex rule.pattern && patterns.regex_match (inner rule.pattern) model_name
      then expanded (expand (inner rule.pattern) model_name rule.target)
      else ok rule.target

  abbrev pub first_match :
      Result AliasError Bool
      → Result AliasError String
      → Result AliasError String
      → Result AliasError String
  first_match (err e) here further = err e
  first_match (ok true) here further = here
  first_match (ok false) here further = further

  unfoldable pub apply_alias_transformations : List AliasRule → String → Result AliasError String
  apply_alias_transformations [] model_name = ok model_name
  apply_alias_transformations (rule ∷ rules) model_name =
      first_match (matches rule model_name) (apply rule model_name)
        (apply_alias_transformations rules model_name)
