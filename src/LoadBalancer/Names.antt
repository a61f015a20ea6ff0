-- ===== src/LoadBalancer/Names.antt =====
-- smolrouter/load_balancer.py: `parse_model_name`. The digits of a suffix are the ASCII ones: what
-- `\d` and `int` make of other decimal digits of Unicode is not modelled.
pub mod Laws
use Prim.Native.Char.{Char, code}
use Prim.Native.String.{String, [], ◌∷◌}
use smol_router.Prelude.{
  ℕ, zero, suc, ◌+◌, ◌-◌, ◌*◌, ◌≡◌, Bool, true, false, not, ◌&&◌, ◌||◌, Option, none, some, ltb,
  leb, ◌==◌, if◌then◌else◌,
}

unfoldable pub is_digit : ℕ → Bool
is_digit c = leb b'0' c && leb c b'9'

abbrev pub every_digit : String → Bool
every_digit [] = true
every_digit (c ∷ s) = is_digit (code c) && every_digit s

-- `(\d+)$`
abbrev pub is_number : String → Bool
is_number [] = false
is_number (c ∷ s) = every_digit (c ∷ s)

abbrev pub value_from : ℕ → String → ℕ
value_from n [] = n
value_from n (c ∷ s) = value_from (n * 10 + (code c - b'0')) s

-- `int(s)` of a text of digits
abbrev pub value : String → ℕ
value s = value_from 0 s

abbrev pub has_code : ℕ → String → Bool
has_code c [] = false
has_code c (x ∷ s) = (code x == c) || has_code c s

abbrev pub extend :
    Char → Option (String × String) → Option (String × String) → Option (String × String)
extend x (some (a, b)) other = some (x ∷ a, b)
extend x none other = other

-- The text before and after the last character with the code.
unfoldable pub split_last : ℕ → String → Option (String × String)
split_last c [] = none
split_last c (x ∷ s) = extend x (split_last c s) (if code x == c then some ([], s) else none)

abbrev pub is_blank : String → Bool
is_blank [] = true
is_blank (x ∷ s) = false

abbrev pub keep_if {ℓ} : {A : Type ℓ} → Bool → A → Option A
keep_if true a = some a
keep_if false a = none

abbrev pub newline : ℕ
newline = 10

-- What `$` closes: it also matches before a newline at the end.
unfoldable pub chop : String → String
chop [] = []
chop (x ∷ []) = if code x == newline then [] else x ∷ []
chop (x ∷ y ∷ s) = x ∷ chop (y ∷ s)

-- `re.match(r"^(.+)C(\d+)$", model_id)` for the one character C: the digits hold no C, so the match
-- is at the last C; `.` matches no newline.
unfoldable pub match_suffix : ℕ → String → Option (String × String)
match_suffix c model_id = elim (split_last c (chop model_id)) [
  | some (base, raw) ↦
      keep_if (not (is_blank base) && not (has_code newline base) && is_number raw) (base, raw)
  | none ↦ none
]

-- `len(raw_suffix) > 1 and raw_suffix.startswith("0")`
abbrev pub has_leading_zero : String → Bool
has_leading_zero (c ∷ d ∷ s) = code c == b'0'
has_leading_zero _ = false

unfoldable pub parse_dash : String → Option (String × String) → String × ℕ
parse_dash model_id none = (model_id, 0)
parse_dash model_id (some (base, raw_suffix)) =
    if has_leading_zero raw_suffix
    then (model_id, 0)
    else if ltb 99 (value raw_suffix)
    then (model_id, 0)
    else if has_code b'-' base
    then (base, value raw_suffix)
    else (model_id, 0)

unfoldable pub parse_colon : String → Option (String × String) → String × ℕ
parse_colon model_id none = parse_dash model_id (match_suffix b'-' model_id)
parse_colon model_id (some (base, raw)) = (base, value raw)

unfoldable pub parse_model_name : String → String × ℕ
parse_model_name model_id = parse_colon model_id (match_suffix b':' model_id)
