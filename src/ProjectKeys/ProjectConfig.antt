-- ===== src/ProjectKeys/ProjectConfig.antt =====
-- smolrouter/project_key_manager.py: the configuration of a new project.
use smol_router.Prelude.{
  ℕ, String, true, not, ◌||◌, Option, none, some, List, [], ◌∷◌, if◌then◌else◌, length, leb, Dict,
  put, Result, ok, err, ◌>>=◌, ◌>>◌, guard,
}
use smol_router.Value.{
  Value, Values, null, bool, int, negative, text, array, mapping, other, nil, cons,
}
use smol_router.Strategy.Names.{strip}
use smol_router.LoadBalancer.Names.{is_blank}
use smol_router.FacadeKeys.Values.{list_of}
use smol_router.ProjectKeys.Sources.{
  ManagerError, invalid_display_name, invalid_tag, invalid_tags, tags_not_unique, or_fail,
  has_duplicates,
}
use smol_router.ProjectKeys.Ids.{text_length}

-- `strip()`, not empty and no longer than the limit
abbrev pub bounded_text : ManagerError → ℕ → Value → Result ManagerError String
bounded_text e limit (text s) =
    let normalized = strip s in
    if is_blank normalized || not (leb (text_length normalized) limit) then err e else ok normalized
bounded_text e limit null = err e
bounded_text e limit (bool _) = err e
bounded_text e limit (int _) = err e
bounded_text e limit (negative _) = err e
bounded_text e limit (array _) = err e
bounded_text e limit (mapping _) = err e
bounded_text e limit other = err e

abbrev pub normalize_display_name : Value → Result ManagerError String
normalize_display_name = bounded_text invalid_display_name 100

abbrev pub normalize_tag : Value → Result ManagerError String
normalize_tag = bounded_text invalid_tag 40

unfoldable pub normalize_all_tags : List Value → Result ManagerError (List String)
normalize_all_tags [] = ok []
normalize_all_tags (tag ∷ tags) = do
  normalized ← normalize_tag tag
  rest ← normalize_all_tags tags
  ok (normalized ∷ rest)

unfoldable pub normalize_project_tags : Value → Result ManagerError (List String)
normalize_project_tags value = do
  tags ← or_fail invalid_tags (list_of value)
  guard (leb (length tags) 20) invalid_tags
  normalized ← normalize_all_tags tags
  guard (not (has_duplicates normalized)) tags_not_unique
  ok normalized

abbrev pub texts_of : List String → Values
texts_of [] = nil
texts_of (s ∷ texts) = cons (text s) (texts_of texts)

abbrev pub with_display_name : Option Value → Dict Value → Result ManagerError (Dict Value)
with_display_name none result = ok result
with_display_name (some value) result = do
  name ← normalize_display_name value
  ok (put "display_name" (text name) result)

abbrev pub with_tags : Option Value → Dict Value → Result ManagerError (Dict Value)
with_tags none result = ok result
with_tags (some value) result = do
  tags ← normalize_project_tags value
  ok (put "tags" (array (texts_of tags)) result)

-- `_project_config`, `none` for an argument that is `None`
unfoldable pub project_config : Option Value → Option Value → Result ManagerError (Dict Value)
project_config display_name tags = do
  named ← with_display_name display_name (("enabled", bool true) ∷ [])
  with_tags tags named
