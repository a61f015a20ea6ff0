-- ===== src/ProjectKeys/Ids.antt =====
-- smolrouter/project_key_manager.py: the ids of new projects.
use Prim.Native.Char.{code}
use Prim.Native.String.{[], ◌∷◌, ◌++◌}
use smol_router.Prelude.{
  ℕ, suc, String, Bool, true, false, not, ◌&&◌, ◌||◌, ◌==◌, List, str_eq, if◌then◌else◌, any, leb,
  Result, ok, err,
}
use smol_router.Strategy.Names.{strip, between}
use smol_router.Strategy.Resolve.{is_part}
use smol_router.Access.Patterns.{starts_with_slash, ends_with_slash}
use smol_router.ProjectKeys.Sources.{ManagerError, invalid_project_id}

abbrev pub text_length : String → ℕ
text_length [] = 0
text_length (x ∷ s) = suc (text_length s)

abbrev pub is_alphanumeric : ℕ → Bool
is_alphanumeric c = between b'0' b'9' c || between b'A' b'Z' c || between b'a' b'z' c

abbrev pub is_id_character : ℕ → Bool
is_id_character c = is_alphanumeric c || c == b'.' || c == b'_' || c == b'/' || c == b'-'

abbrev pub every_id_character : String → Bool
every_id_character [] = true
every_id_character (x ∷ s) = is_id_character (code x) && every_id_character s

-- `PROJECT_ID_RE.fullmatch`: `^[A-Za-z0-9][A-Za-z0-9._/-]{0,127}$`
unfoldable pub matches_project_id : String → Bool
matches_project_id [] = false
matches_project_id (x ∷ s) =
    is_alphanumeric (code x) && every_id_character s && leb (text_length s) 127

abbrev pub add_to_first : String → List String → List String
add_to_first x List.[] = List.◌∷◌ x List.[]
add_to_first x (List.◌∷◌ s segments) = List.◌∷◌ (x ++ s) segments

-- `value.split("/")`
unfoldable pub split_slashes : String → List String
split_slashes [] = List.◌∷◌ "" List.[]
split_slashes (x ∷ s) =
    let segments = split_slashes s in
    if code x == b'/' then List.◌∷◌ "" segments else add_to_first (x ∷ []) segments

unfoldable pub has_invalid_project_path : String → Bool
has_invalid_project_path value =
    starts_with_slash value
    || ends_with_slash value
    || is_part "//" value
    || any (λ segment. str_eq segment "." || str_eq segment "..") (split_slashes value)

unfoldable pub validate_project_id : String → Result ManagerError String
validate_project_id raw_value =
    let value = strip raw_value in
    if str_eq raw_value value && matches_project_id value && not (has_invalid_project_path value)
    then ok value
    else err invalid_project_id
