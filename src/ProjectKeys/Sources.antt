-- ===== src/ProjectKeys/Sources.antt =====
-- What smolrouter/project_key_manager.py reads from the two managed files, with the reading of
-- secrets of smolrouter/facade_key_store.py and secret_store.py.
pub mod Laws
use smol_router.Prelude.{
  ℕ, String, Bool, true, false, not, ◌||◌, Option, none, some, List, [], ◌∷◌, str_eq, if◌then◌else◌,
  any, is_empty, length, ltb, Dict, get, put, Result, ok, err, ◌>>=◌, ◌>>◌, guard,
}
use smol_router.Value.{
  Value, Fields, Values, null, bool, int, negative, text, array, mapping, other, nil, cons, end,
  field, fields, items,
}
use smol_router.Strategy.Names.{strip}
use smol_router.LoadBalancer.Names.{is_blank}
use smol_router.FacadeKeys.Values.{Conversions, FacadeKeyError, mapping_of}
use smol_router.FacadeKeys.Config.{clean_tags}

-- The files as bytes, with YAML or JSON and the SHA-256 of the standard library.
pub record Files : Type 1 where
  pub Content : Type 0
  -- the digest in hexadecimal
  pub content_hash : Content → String
  -- a text of white space only
  pub has_no_text : Content → Bool
  -- the value in the file, or `none` when the reading fails
  pub load : Content → Option Value
  pub dump : Dict Value → Content
  pub dump_keys : Dict (List String) → Content
  -- `sha256:` with the digest of the secret
  pub facade_key_id : String → String

pub data ManagerError : Type 0 where
  -- `ProjectKeyManagementError`
  unreadable_routes unreadable_keys not_a_mapping facade_keys_not_a_mapping recovery_failed :
      ManagerError
  duplicate_values : (project_id : String) → ManagerError
  -- `ProjectKeyValidationError`
  invalid_project_id invalid_display_name invalid_tag invalid_tags tags_not_unique : ManagerError
  -- `ProjectKeyNotFoundError`
  project_not_found key_not_found : ManagerError
  -- `ProjectKeyConflictError`
  project_exists key_exists ambiguous_fingerprint routes_changed file_changed : ManagerError
  -- a `ValueError` of the registry
  invalid_registry : FacadeKeyError → ManagerError

abbrev pub or_fail {ℓ} : {A : Type ℓ} → ManagerError → Option A → Result ManagerError A
or_fail e none = err e
or_fail e (some a) = ok a

abbrev pub validated {ℓ} : {A : Type ℓ} → Result FacadeKeyError A → Result ManagerError A
validated (err e) = err (invalid_registry e)
validated (ok a) = ok a

-- `None` stands for an empty mapping.
abbrev pub mapping_or_empty : ManagerError → Value → Result ManagerError (Dict Value)
mapping_or_empty e null = ok []
mapping_or_empty e (mapping fs) = ok (fields fs)
mapping_or_empty e (bool _) = err e
mapping_or_empty e (int _) = err e
mapping_or_empty e (negative _) = err e
mapping_or_empty e (text _) = err e
mapping_or_empty e (array _) = err e
mapping_or_empty e other = err e

-- A scalar text, a list or nothing.
abbrev pub is_secret_entry : Value → Bool
is_secret_entry null = true
is_secret_entry (text _) = true
is_secret_entry (array _) = true
is_secret_entry (bool _) = false
is_secret_entry (int _) = false
is_secret_entry (negative _) = false
is_secret_entry (mapping _) = false
is_secret_entry other = false

-- `len(values) != len(set(values))`
unfoldable pub has_duplicates : List String → Bool
has_duplicates [] = false
has_duplicates (v ∷ values) = any (str_eq v) values || has_duplicates values

unfoldable pub check_values : Dict (List String) → Result ManagerError (Unit {0})
check_values [] = ok tt
check_values ((project_id, values) ∷ key_map) = do
  guard (not (has_duplicates values)) (duplicate_values project_id)
  check_values key_map

abbrev pub put_values : String → List String → Dict (List String) → Dict (List String)
put_values key_id [] normalized = normalized
put_values key_id (v ∷ values) normalized = put key_id (v ∷ values) normalized

-- The entries with a key that is not blank.
unfoldable pub named_entries : Dict (List String) → Dict (List String)
named_entries [] = []
named_entries ((key_id, values) ∷ parsed) =
    let named = named_entries parsed in if is_blank key_id then named else (key_id, values) ∷ named

module _ (P : Conversions) (F : Files) where
  open F use {Content, content_hash, has_no_text, load}

  pub record Disk : Type 0 where
    pub routes_file : Option Content
    pub secrets_file : Option Content

  pub record Sources : Type 0 where
    pub routes : Dict Value
    pub projects : Dict Value
    pub keys : Dict (List String)

  abbrev pub content_hash_of : Option Content → Option String
  content_hash_of none = none
  content_hash_of (some content) = some (content_hash content)

  abbrev pub read_mapping : Option Content → Result ManagerError (Dict Value)
  read_mapping none = ok []
  read_mapping (some content) = do
    parsed ← or_fail unreadable_routes (load content)
    mapping_or_empty not_a_mapping parsed

  -- The loop is that of the tags: no `None`, stripped, none blank.
  unfoldable pub normalize_secret_values : Value → List String
  normalize_secret_values (text s) = clean_tags P (text s ∷ [])
  normalize_secret_values (array vs) = clean_tags P (items vs)
  normalize_secret_values null = []
  normalize_secret_values (bool _) = []
  normalize_secret_values (int _) = []
  normalize_secret_values (negative _) = []
  normalize_secret_values (mapping _) = []
  normalize_secret_values other = []

  unfoldable pub parse_facade_key_map :
      Dict Value → Dict (List String) → Result ManagerError (Dict (List String))
  parse_facade_key_map [] normalized = ok normalized
  parse_facade_key_map ((key_id, raw_values) ∷ raw) normalized = do
    guard (is_secret_entry raw_values) unreadable_keys
    parse_facade_key_map raw
        (put_values (strip key_id) (normalize_secret_values raw_values) normalized)

  abbrev pub read_yaml_mapping : Content → Result ManagerError (Dict Value)
  read_yaml_mapping content = if has_no_text content then ok [] else (do
    parsed ← or_fail unreadable_keys (load content)
    or_fail unreadable_keys (mapping_of parsed))

  abbrev pub load_facade_key_secrets : Option Content → Result ManagerError (Dict (List String))
  load_facade_key_secrets none = ok []
  load_facade_key_secrets (some content) = do
    raw ← read_yaml_mapping content
    parsed ← parse_facade_key_map raw []
    ok (named_entries parsed)

  -- `routes.get("facade_keys", {})`, or an empty mapping for `None`
  abbrev pub projects_of : Option Value → Result ManagerError (Dict Value)
  projects_of none = ok []
  projects_of (some raw_projects) = mapping_or_empty facade_keys_not_a_mapping raw_projects

  unfoldable pub read_sources : Disk → Result ManagerError Sources
  read_sources d = do
    routes ← read_mapping d.routes_file
    projects ← projects_of (get "facade_keys" routes)
    keys ← load_facade_key_secrets d.secrets_file
    check_values keys
    ok (record { routes = routes; projects = projects; keys = keys })
