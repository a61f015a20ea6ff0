-- ===== src/Strategy/Names.antt =====
-- smolrouter/strategies.py: `_parse_fully_qualified_name`, with Python's `strip` on text.
pub mod Laws
pub mod Strip
use Prim.Native.Char.{code}
use Prim.Native.String.{String, [], ◌∷◌}
use smol_router.Prelude.{
  ℕ, Bool, true, false, not, ◌&&◌, ◌||◌, Option, none, some, leb, ◌==◌, if◌then◌else◌,
}
use smol_router.LoadBalancer.Names.{has_code, split_last, is_blank}
use smol_router.Access.Patterns.{all_but_last}

abbrev pub between : ℕ → ℕ → ℕ → Bool
between low high c = leb low c && leb c high

-- `str.isspace` of one character
unfoldable pub is_space : ℕ → Bool
is_space c =
    between 9 13 c
    || between 28 32 c
    || c == 133
    || c == 160
    || c == 5760
    || between 8192 8202 c
    || between 8232 8233 c
    || c == 8239
    || c == 8287
    || c == 12288

unfoldable pub lstrip : String → String
lstrip [] = []
lstrip (x ∷ s) = let rest = lstrip s in if is_space (code x) then rest else x ∷ s

unfoldable pub rstrip : String → String
rstrip [] = []
rstrip (x ∷ s) = let rest = rstrip s in if is_blank rest && is_space (code x) then [] else x ∷ rest

-- `s.strip()`
unfoldable pub strip : String → String
strip s = rstrip (lstrip s)

-- `s.endswith("]")`
unfoldable pub ends_with_bracket : String → Bool
ends_with_bracket [] = false
ends_with_bracket (x ∷ s) = if is_blank s then code x == b']' else ends_with_bracket s

-- The name and the provider around the last "[", both non-empty.
unfoldable pub split_name : Option (String × String) → Option (String × String)
split_name none = none
split_name (some (before, behind)) =
    let model_name = strip before in
    let provider_id = strip (all_but_last behind) in
    if not (is_blank model_name) && not (is_blank provider_id)
    then some (model_name, provider_id)
    else none

unfoldable pub parse_fully_qualified_name : String → Option (String × String)
parse_fully_qualified_name requested_model =
    let model_str = strip requested_model in
    if not (ends_with_bracket model_str) || not (has_code b'[' model_str)
    then none
    else split_name (split_last b'[' model_str)
