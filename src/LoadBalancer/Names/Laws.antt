-- ===== src/LoadBalancer/Names/Laws.antt =====
-- How `parse_model_name` groups names.
use Prim.Native.Char.{Char, code}
use Prim.Native.String.{String, [], ◌∷◌, ◌++◌}
use text.Mathlib.TextLemmas.{nil-append, cons-append}
use smol_router.Prelude.{ℕ, ◌≤◌, ◌<◌, ◌≡◌, refl, ap, ◌⊎◌, inl, inr, true, false, none, some, arith}
use smol_router.LoadBalancer.Names.{
  is_digit, every_digit, is_number, value, has_code, split_last, is_blank, match_suffix, chop,
  newline, parse_dash, parse_colon, parse_model_name,
}

pub split_last-none : (c : ℕ) (s : String) → has_code c s ≡ false → split_last c s ≡ none
unfolding split_last
split_last-none c [] h = refl
split_last-none c (x ∷ s) h = ground (arith, split_last-none c s)

pub split_last_found :
    (c : ℕ) (x : Char) (s t : String)
    → code x ≡ c
    → has_code c t ≡ false
    → split_last c (s ++ (x ∷ t)) ≡ some (s, t)
unfolding split_last
split_last_found c x [] t h g = rw nil-append (ground (arith, split_last-none c t g))
split_last_found c x (y ∷ s) t h g = rw cons-append (ground (arith, split_last_found c x s t h g))

no_separator :
    (c : ℕ) (s : String) → c < b'0' ⊎ (b'9' < c) → every_digit s ≡ true → has_code c s ≡ false
unfolding is_digit
no_separator c [] out h = refl
no_separator c (x ∷ s) out h = ground (arith, no_separator c s out)

chop_digits : (raw : String) → every_digit raw ≡ true → chop raw ≡ raw
unfolding chop is_digit
chop_digits [] h = refl
chop_digits (d ∷ []) h = ground arith
chop_digits (d ∷ e ∷ raw) h = ap (λ s. d ∷ s) (chop_digits (e ∷ raw) (ground arith))

-- A text that ends in a separator and digits ends in no newline.
chop_suffix :
    (x : Char) (base raw : String)
    → is_number raw ≡ true
    → chop (base ++ (x ∷ raw)) ≡ base ++ (x ∷ raw)
unfolding chop
chop_suffix x base [] h = cc
chop_suffix x [] (d ∷ raw) h = rw nil-append (ap (λ s. x ∷ s) (chop_digits (d ∷ raw) h))
chop_suffix x (y ∷ []) (d ∷ raw) h =
    let rest = chop_suffix x [] (d ∷ raw) h in
    rw (cons-append, nil-append) (ap (λ s. y ∷ s) (rw nil-append at rest))
chop_suffix x (y ∷ z ∷ base) (d ∷ raw) h =
    let rest = chop_suffix x (z ∷ base) (d ∷ raw) h in
    rw (cons-append, cons-append) (ap (λ s. y ∷ s) (rw cons-append at rest))

pub match_suffix_found :
    (c : ℕ) (x : Char) (base raw : String)
    → (c < b'0') ⊎ (b'9' < c)
    → code x ≡ c
    → is_blank base ≡ false
    → has_code newline base ≡ false
    → is_number raw ≡ true
    → match_suffix c (base ++ (x ∷ raw)) ≡ some (base, raw)
unfolding match_suffix
match_suffix_found c x base [] out h blank one_line number = cc
match_suffix_found c x base (d ∷ raw) out h blank one_line number =
    rw (match_suffix, chop_suffix x base (d ∷ raw) number)
      (ground (arith, split_last_found c x base (d ∷ raw) h (no_separator c (d ∷ raw) out number)))

-- A name of the colon form is grouped with its base, whatever else the base holds and however the
-- number is spelled. The base is not empty and holds no newline, and the suffix is one or more ASCII
-- digits.
pub parse_model_name-colon :
    (base digits : String)
    → is_blank base ≡ false
    → has_code newline base ≡ false
    → is_number digits ≡ true
    → parse_model_name (base ++ (":" ∷ digits)) ≡ (base, value digits)
unfolding parse_model_name parse_colon
parse_model_name-colon base digits nonempty one_line number =
    rw (match_suffix_found b':' ":" base digits (inr (omega arith)) refl nonempty one_line number)

has_code-append :
    (c : ℕ) (s t : String)
    → has_code c s ≡ false
    → has_code c t ≡ false
    → has_code c (s ++ t) ≡ false
has_code-append c [] t h k = rw nil-append k
has_code-append c (x ∷ s) t h k = rw cons-append (ground (arith, has_code-append c s t))

no_colon :
    (base digits : String)
    → has_code b':' base ≡ false
    → is_number digits ≡ true
    → match_suffix b':' (base ++ ("-" ∷ digits)) ≡ none
unfolding match_suffix
no_colon base [] h number = cc
no_colon base (d ∷ raw) h number =
    let absent : has_code b':' ("-" ∷ d ∷ raw) ≡ false =
      no_separator b':' (d ∷ raw) (inr (omega arith)) number in
    rw
      (
        match_suffix,
        chop_suffix "-" base (d ∷ raw) number,
        split_last-none b':' _ (has_code-append b':' base ("-" ∷ d ∷ raw) h absent),
      )
      refl

-- A name of the dash form, whose base is not empty and holds no newline and no colon and whose
-- number is spelled in ASCII digits, is an instance of its base just if the base holds a dash already
-- and the number is at most 99 and has no leading zero before another digit; else the whole name is
-- its own group.
pub parse_model_name-dash :
    (base : String) (d : Char) (digits : String)
    → is_blank base ≡ false
    → has_code newline base ≡ false
    → has_code b':' base ≡ false
    → is_number (d ∷ digits) ≡ true
    → (((code d ≡ b'0') → is_blank digits ≡ true)
          × (value (d ∷ digits) ≤ 99)
          × (has_code b'-' base ≡ true)
        → parse_model_name (base ++ ("-" ∷ d ∷ digits)) ≡ (base, value (d ∷ digits)))
      × (((code d ≡ b'0') × (is_blank digits ≡ false))
            ⊎ (99 < value (d ∷ digits))
            ⊎ (has_code b'-' base ≡ false)
          → parse_model_name (base ++ ("-" ∷ d ∷ digits)) ≡ (base ++ ("-" ∷ d ∷ digits), 0))
unfolding parse_model_name parse_colon parse_dash
parse_model_name-dash base d [] nonempty one_line plain number =
    let dash =
      match_suffix_found b'-' "-" base (d ∷ []) (inl (omega arith)) refl nonempty one_line number in
    rw (no_colon base (d ∷ []) plain number, dash) (ground arith)
parse_model_name-dash base d (e ∷ digits) nonempty one_line plain number =
    let dash =
      match_suffix_found b'-' "-" base (d ∷ e ∷ digits) (inl (omega arith)) refl nonempty one_line
        number in
    rw (no_colon base (d ∷ e ∷ digits) plain number, dash) (ground arith)
