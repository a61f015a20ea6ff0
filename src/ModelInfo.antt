-- ===== src/ModelInfo.antt =====
-- smolrouter/interfaces.py: `ModelInfo`, its display name, and the test for a request.
use Prim.Native.String
use smol_router.Prelude.{String, Bool, ◌||◌, List, [], ◌∷◌, str_eq, any, ◌≢◌, All}

pub record ModelInfo : Type 0 where
  pub id : String
  pub name : String
  pub provider_id : String
  pub provider_type : String
  pub endpoint : String
  pub aliases : List String

-- `f"{self.name} [{self.provider_id}]"`
unfoldable pub display_name : ModelInfo → String
display_name m = String.◌++◌ m.name (String.◌++◌ " [" (String.◌++◌ m.provider_id "]"))

unfoldable pub matches_request : ModelInfo → String → Bool
matches_request m requested_model =
    any (λ s. str_eq requested_model s) (m.id ∷ m.name ∷ m.aliases)
    || str_eq requested_model (display_name m)

-- `[model.id, model.name, model.display_name] + model.aliases`
unfoldable pub identifiers : ModelInfo → List String
unfolding display_name
identifiers m = m.id ∷ m.name ∷ display_name m ∷ m.aliases

-- No two models of the list have one id.
abbrev pub DistinctIds : List ModelInfo → Type 0
DistinctIds [] = Unit
DistinctIds (m ∷ l) = All (λ k. k.id ≢ m.id) l × DistinctIds l
