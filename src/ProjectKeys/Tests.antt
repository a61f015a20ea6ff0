-- ===== src/ProjectKeys/Tests.antt =====
-- Runs of the project keys on small files, whose digests are written beside their values.
use smol_router.Prelude.{
  String, ◌≡◌, refl, ◌≢◌, ◌⊎◌, true, false, none, some, List, [], ◌∷◌, Dict, get, put, delete, In,
  ok, err,
}
use smol_router.Value.{Value, Values, Fields, null, text, array, mapping, nil, cons, end, field}
use smol_router.Strategy.Names.{strip, rstrip, lstrip, is_space}
use smol_router.FacadeKeys.Config.{
  FacadeKeyConfig, coerce_positive_int, coerce_warn_threshold, clean_tags, normalize_tags,
  normalize_quota_policy, coerce_enabled, normalize_rate_limit, normalize_facade_key_config,
}
use smol_router.FacadeKeys.Registry.{
  normalize_registry_key, clean_secrets, normalize_registry_secrets, claims, has_duplicate_claim,
  build_index, FacadeKeyRegistry, normalize_registry_configs, new_registry, from_sources,
  secrets_of, caller_of, resolve_secret,
}
use smol_router.FacadeKeys.Tests.{tenths}
use smol_router.ProjectKeys.Sources.{
  Files, invalid_project_id, routes_changed, key_exists, has_duplicates, check_values,
  named_entries, Disk, Sources, normalize_secret_values, parse_facade_key_map, read_sources,
}
use smol_router.ProjectKeys.Manager.{
  Manager, read_registry, write_keys, keys_with, create_key, revoke_key,
}
use smol_router.ProjectKeys.Ids.{
  validate_project_id, matches_project_id, has_invalid_project_path, split_slashes,
}
use smol_router.ProjectKeys.ProjectConfig.{project_config}
use smol_router.ProjectKeys.Projects.{
  plan_deletion, write_deletion, recover_after_delete_failure, delete_project, create_project,
}
use smol_router.ProjectKeys.Projects.Create.{
  WithProject, WroteRoutes, WroteNothing, create_project_lem,
}
use smol_router.Strategy.Resolve.{is_part}
use smol_router.ProjectKeys.Manager.Laws.{Wrote, Refused, WithSecret, create_key_lem}
use smol_router.ProjectKeys.Manager.Revoke.{WithoutSecret, revoke_key_lem}

abbrev secret_values : List String → Values
secret_values [] = nil
secret_values (s ∷ secrets) = cons (text s) (secret_values secrets)

abbrev secret_fields : Dict (List String) → Fields
secret_fields [] = end
secret_fields ((k, secrets) ∷ keys) = field k (array (secret_values secrets)) (secret_fields keys)

-- The digest of a file, and its value
abbrev Page : Type 0
Page = String × Value

abbrev pages : Files
pages = record {
  Content = Page;
  content_hash = λ p. p.0;
  has_no_text = λ p. false;
  load = λ p. some p.1;
  dump = λ d. ("routes", null);
  dump_keys = λ keys. ("written", mapping (secret_fields keys));
  facade_key_id = λ s. s;
}

abbrev projects : Fields
projects = field "a" null end

abbrev disk : Disk tenths pages
disk = record {
  routes_file = some ("r", mapping (field "facade_keys" (mapping projects) end));
  secrets_file = some ("s", mapping (field "a" (array (cons (text "s1") nil)) end));
}

abbrev manager : Manager tenths pages
manager = record { disk = disk; snapshot = none; cached_keys = none }

-- Nobody else writes.
abbrev alone : Disk tenths pages → Disk tenths pages
alone d = d

-- Somebody writes to the routes.
abbrev disturbed : Disk tenths pages → Disk tenths pages
disturbed d = record { routes_file = some ("r2", null); secrets_file = d.secrets_file }

create_key-replies : (create_key tenths pages " a" "" "s2" alone manager).0 ≡ ok ("s2", "s2")
unfolding create_key keys_with write_keys read_registry read_sources parse_facade_key_map
    normalize_secret_values named_entries check_values has_duplicates from_sources
    normalize_registry_configs normalize_registry_key normalize_facade_key_config coerce_enabled
    normalize_tags clean_tags normalize_quota_policy coerce_positive_int coerce_warn_threshold
    normalize_rate_limit normalize_registry_secrets clean_secrets new_registry has_duplicate_claim
    claims build_index get put strip rstrip lstrip is_space
create_key-replies = refl

taken-refused : keys_with tenths pages "a" "s1" disk ≡ err key_exists
unfolding keys_with read_sources parse_facade_key_map normalize_secret_values named_entries
    check_values has_duplicates clean_tags get put strip rstrip lstrip is_space
taken-refused = refl

change-refused :
    write_keys tenths pages {A = String} "s2" disturbed [] manager
    ≡ (err routes_changed, record { disk = disturbed disk; snapshot = none; cached_keys = none })
unfolding write_keys
change-refused = refl

create_key_lem_example :
    Refused tenths pages alone manager (create_key tenths pages " a" "" "s2" alone manager)
    ⊎ ((keys : Dict (List String)) × (sources : Sources tenths pages)
        × (registry : FacadeKeyRegistry tenths) × (config : FacadeKeyConfig tenths) × Wrote tenths
            pages
            ("s2", "s2")
            alone
            manager
            keys
            (create_key tenths pages " a" "" "s2" alone manager)
        × WithSecret tenths pages (strip " a") "s2" disk keys sources
        × (from_sources tenths sources.projects keys ≡ ok registry)
        × (get (strip " a") registry.configs ≡ some config)
        × (resolve_secret tenths registry "s2" ≡ some (caller_of tenths (strip " a") config)))
unfolding strip rstrip lstrip is_space
create_key_lem_example = create_key_lem tenths pages " a" "" "s2" alone manager refl

revoke_key_lem_example :
    Refused tenths pages alone manager (revoke_key tenths pages "a" "s1" alone manager)
    ⊎ ((keys : Dict (List String)) × (sources : Sources tenths pages)
        × (registry : FacadeKeyRegistry tenths) × (secret : String) × Wrote tenths pages tt alone
            manager keys
            (revoke_key tenths pages "a" "s1" alone manager)
        × WithoutSecret tenths pages (strip "a") (strip "s1") disk keys sources secret
        × (secret ≡ strip "s1")
        × (from_sources tenths sources.projects keys ≡ ok registry)
        × ((config : FacadeKeyConfig tenths)
            → resolve_secret tenths registry secret ≢ some (caller_of tenths (strip "a") config))
        × ((v : String)
            → In v (secrets_of (strip "a") sources.keys)
            → v ≢ secret
            → (config : FacadeKeyConfig tenths) × (get (strip "a") registry.configs ≡ some config)
              × (resolve_secret tenths registry v ≡ some (caller_of tenths (strip "a") config))))
revoke_key_lem_example = revoke_key_lem tenths pages "a" "s1" alone manager

-- Somebody adds a secret.
abbrev meddled : Disk tenths pages → Disk tenths pages
meddled d = record d {
  secrets_file =
      some ("s2", mapping (field "a" (array (cons (text "s1") (cons (text "s9") nil))) end));
}

-- The recovery of the deletion that fails writes over the secret that was added.
addition-lost :
    (delete_project tenths pages "a" meddled alone manager).1.disk.secrets_file
    ≡ some ("written", mapping (field "a" (array (cons (text "s1") nil)) end))
unfolding delete_project plan_deletion write_deletion recover_after_delete_failure read_registry
    read_sources parse_facade_key_map normalize_secret_values named_entries check_values
    has_duplicates from_sources normalize_registry_configs normalize_registry_key
    normalize_facade_key_config coerce_enabled normalize_tags clean_tags normalize_quota_policy
    coerce_positive_int coerce_warn_threshold normalize_rate_limit normalize_registry_secrets
    clean_secrets new_registry has_duplicate_claim claims build_index get put delete strip rstrip
    lstrip is_space
addition-lost = refl

valid-ids :
    (validate_project_id "team/app-1" ≡ ok "team/app-1")
    × (validate_project_id "team/../x" ≡ err invalid_project_id)
    × (validate_project_id "/x" ≡ err invalid_project_id)
unfolding validate_project_id matches_project_id has_invalid_project_path split_slashes is_part
    strip rstrip lstrip is_space
valid-ids = (refl, refl, refl)

create_project_lem_example :
    WroteNothing tenths pages alone manager
      (create_project tenths pages "b" none none alone manager)
    ⊎ ((config routes : Dict Value) × (sources : Sources tenths pages)
        × (registry : FacadeKeyRegistry tenths) × ((strip "b" ≡ "b")
            × (matches_project_id "b" ≡ true)
            × (has_invalid_project_path "b" ≡ false))
        × (project_config none none ≡ ok config)
        × WithProject tenths pages "b" config disk routes sources registry
        × WroteRoutes tenths pages alone manager routes
            (create_project tenths pages "b" none none alone manager))
create_project_lem_example = create_project_lem tenths pages "b" none none alone manager
