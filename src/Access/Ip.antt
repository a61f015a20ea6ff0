-- ===== src/Access/Ip.antt =====
-- smolrouter/access_control.py: `IPBasedAccessControl`.
pub mod Laws
use smol_router.Prelude.{
  String, Bool, true, false, not, ◌&&◌, ◌||◌, Option, none, some, List, [], ◌∷◌, ◌++◌, map, str_eq,
  if◌then◌else◌, filter, any, all, find?, is_empty, Dict, Result, ok, err, ◌>>=◌, guard, ◌>>◌,
}
use smol_router.ModelInfo.{ModelInfo, identifiers}
use smol_router.Access.Patterns.{PatternEngine, Compiled, compile, is_regex, inner}

-- The value of one entry of the rules: a list, a mapping with the three keys that are read, or
-- something else, which is skipped.
pub data RuleConfig : Type 0 where
  simple : (model_patterns : List String) → RuleConfig
  complex : (allow deny : List String) (allow_all : Bool) → RuleConfig
  invalid : RuleConfig

pub record Rule : Type 0 where
  pub ip_pattern : Compiled
  pub allowed_models : List Compiled
  pub denied_models : List Compiled
  pub allow_all : Bool

unfoldable pub make_rule : String → List String → List String → Bool → Rule
unfolding compile
make_rule ip allow deny allow_all = record {
  ip_pattern = compile ip;
  allowed_models = map compile allow;
  denied_models = map compile deny;
  allow_all = allow_all;
}

-- The exception of `re.compile`
pub data RegexError : Type 0 where
  bad_regex : RegexError

module _ (E : PatternEngine) where
  open E use {compiles, regex_match, fnmatch}

  abbrev pub compiles_if_regex : String → Bool
  compiles_if_regex p = if is_regex p then compiles (inner p) else true

  -- One round of the loop: the rule, or nothing for an invalid entry.
  unfoldable pub compile_rule : String → RuleConfig → Result RegexError (List Rule)
  compile_rule ip (simple patterns) =
      guard (compiles_if_regex ip && all compiles_if_regex patterns) bad_regex
      >> ok (make_rule ip patterns [] false ∷ [])
  compile_rule ip (complex allow deny allow_all) =
      guard (compiles_if_regex ip && all compiles_if_regex allow && all compiles_if_regex deny)
        bad_regex
      >> ok (make_rule ip allow deny allow_all ∷ [])
  compile_rule ip invalid = ok []

  unfoldable pub compile_rules : Dict RuleConfig → Result RegexError (List Rule)
  unfolding compile_rule
  compile_rules [] = ok []
  compile_rules ((ip, config) ∷ rules) = do
    first ← compile_rule ip config
    rest ← compile_rules rules
    ok (first ++ rest)

  unfoldable pub matches_ip : String → Rule → Bool
  matches_ip client_ip rule = elim (rule.ip_pattern.regex) [
    | some regex ↦ regex_match regex client_ip
    | none ↦ str_eq client_ip rule.ip_pattern.pattern
  ]

  unfoldable pub matches_model_pattern : String → Compiled → Bool
  matches_model_pattern model_id c = elim (c.regex) [
    | some regex ↦ regex_match regex model_id
    | none ↦ fnmatch model_id c.pattern
  ]

  unfoldable pub find_matching_rule : String → List Rule → Option Rule
  find_matching_rule ip rules = find? (matches_ip ip) rules

  -- Some pattern matches some identifier of the model.
  unfoldable pub matches_any : ModelInfo → List Compiled → Bool
  matches_any model patterns =
      any (λ c. any (λ identifier. matches_model_pattern identifier c) (identifiers model)) patterns

  unfoldable pub is_model_allowed : ModelInfo → Rule → Bool
  is_model_allowed model rule =
      if is_empty rule.allowed_models then true else matches_any model rule.allowed_models

  unfoldable pub is_model_denied : ModelInfo → Rule → Bool
  is_model_denied model rule =
      if is_empty rule.denied_models then false else matches_any model rule.denied_models

  unfoldable pub filter_by_rule : Option Rule → List ModelInfo → List ModelInfo
  filter_by_rule none models = models
  filter_by_rule (some rule) models =
      if rule.allow_all
      then filter (λ m. not (is_model_denied m rule)) models
      else filter (λ m. is_model_allowed m rule && not (is_model_denied m rule)) models

  -- `filter_models`
  unfoldable pub filter_models : List Rule → String → List ModelInfo → List ModelInfo
  filter_models rules ip models = filter_by_rule (find_matching_rule ip rules) models

  -- `can_access_model`
  unfoldable pub can_access_model : List Rule → String → ModelInfo → Bool
  can_access_model rules ip model = not (is_empty (filter_models rules ip (model ∷ [])))
