-- ===== src/FacadeKeys/Values.antt =====
-- smolrouter/facade_keys.py: what its readers take from a raw value, and what they raise.
use smol_router.Prelude.{
  ℕ, String, Bool, true, false, Option, none, some, List, str_eq, Dict, get, or_else, Result, ok,
  err,
}
use smol_router.Value.{Value, null, bool, int, negative, text, array, mapping, other, items, fields}
use smol_router.RateLimit.Policy.{ConfigError}

-- The result of `int(value)`: whether it is negative matters, not by how much.
pub data Integer : Type 0 where
  natural : ℕ → Integer
  below_zero : Integer

-- Python's conversions between the values of a configuration.
pub record Conversions : Type 1 where
  pub Float : Type 0
  -- the default threshold 0.8
  pub four_fifths : Float
  -- `0 <= x <= 1`
  pub in_unit_interval : Float → Bool
  -- `str(value)` of a value that is no text
  pub str : Value → String
  -- `int(value)` and `float(value)`, or `none` for a `TypeError` or a `ValueError`
  pub to_int : Value → Option Integer
  pub to_float : Value → Option Float
  -- `s.lower()`
  pub lower : String → String

-- What the `ValueError`s of the module say, with the key and the field that they name.
pub data FacadeKeyError : Type 0 where
  not_an_integer is_negative : (key_id field_name : String) → FacadeKeyError
  threshold_not_numeric threshold_out_of_range : (key_id : String) → FacadeKeyError
  tags_not_a_list quota_not_a_mapping unsupported_action : (key_id : String) → FacadeKeyError
  enabled_not_a_boolean config_not_a_mapping : (key_id : String) → FacadeKeyError
  bad_rate_limit : (key_id : String) → ConfigError → FacadeKeyError
  empty_key : (field_name : String) → FacadeKeyError
  duplicate_id duplicate_secret_id : (key_id : String) → FacadeKeyError
  unknown_secret_ids disabled_ids_with_secrets secrets_not_unique : FacadeKeyError

-- `value in (None, "")`
abbrev pub is_absent : Value → Bool
is_absent null = true
is_absent (text s) = str_eq s ""
is_absent (bool _) = false
is_absent (int _) = false
is_absent (negative _) = false
is_absent (array _) = false
is_absent (mapping _) = false
is_absent other = false

-- `d.get(key)`
abbrev pub value_of : String → Dict Value → Value
value_of key d = or_else (get key d) null

-- The list or the mapping that a value is.
abbrev pub list_of : Value → Option (List Value)
list_of (array vs) = some (items vs)
list_of null = none
list_of (text _) = none
list_of (bool _) = none
list_of (int _) = none
list_of (negative _) = none
list_of (mapping _) = none
list_of other = none

abbrev pub mapping_of : Value → Option (Dict Value)
mapping_of (mapping fs) = some (fields fs)
mapping_of null = none
mapping_of (text _) = none
mapping_of (bool _) = none
mapping_of (int _) = none
mapping_of (negative _) = none
mapping_of (array _) = none
mapping_of other = none

abbrev pub or_raise {ℓ} : {A : Type ℓ} → Option A → FacadeKeyError → Result FacadeKeyError A
or_raise none e = err e
or_raise (some a) e = ok a

abbrev pub non_negative : Integer → FacadeKeyError → Result FacadeKeyError (Option ℕ)
non_negative (natural n) e = ok (some n)
non_negative below_zero e = err e
