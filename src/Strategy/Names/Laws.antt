-- ===== src/Strategy/Names/Laws.antt =====
-- The display name of a model parses back into its name and its provider.
use Prim.Native.Char.{Char, code}
use Prim.Native.String.{String, [], ◌∷◌, ◌++◌}
use text.Mathlib.TextLemmas.{nil-append, cons-append, append_assoc}
use smol_router.Prelude.{ℕ, ◌≡◌, refl, sym, ap, ◌∙◌, Bool, true, false, some, arith}
use smol_router.LoadBalancer.Names.{has_code, is_blank}
use smol_router.LoadBalancer.Names.Laws.{split_last_found}
use smol_router.Access.Patterns.{all_but_last}
use smol_router.ModelInfo.{ModelInfo, display_name}
use smol_router.Strategy.Names.{
  is_space, lstrip, rstrip, strip, ends_with_bracket, split_name, parse_fully_qualified_name,
}

abbrev pub starts_with_space : String → Bool
starts_with_space [] = false
starts_with_space (x ∷ s) = is_space (code x)

-- The text is not empty and has no white space at its ends.
pub record IsTrimmed (s : String) : Type 0 where
  pub nonempty : is_blank s ≡ false
  pub at_start : starts_with_space s ≡ false
  pub at_end : rstrip s ≡ s

lstrip-append :
    (s t : String) → is_blank s ≡ false → starts_with_space s ≡ false → lstrip (s ++ t) ≡ s ++ t
unfolding lstrip
lstrip-append [] t n h = cc
lstrip-append (x ∷ s) t n h = rw cons-append (ground arith)

strip-IsTrimmed : (s : String) → IsTrimmed s → strip s ≡ s
unfolding strip lstrip
strip-IsTrimmed [] t = absurd (let n = t.nonempty in cc)
strip-IsTrimmed (x ∷ s) t = let h = t.at_start in let e = t.at_end in rw h e

nonblank-append : (s : String) (x : Char) (t : String) → is_blank (s ++ (x ∷ t)) ≡ false
nonblank-append [] x t = rw nil-append
nonblank-append (y ∷ s) x t = rw cons-append

rstrip-bracket : (s : String) → rstrip (s ++ "]") ≡ s ++ "]"
unfolding rstrip is_space
rstrip-bracket [] = refl
rstrip-bracket (x ∷ s) = rw (cons-append, rstrip, rstrip-bracket s, nonblank-append s "]" "") refl

rstrip-space : (s : String) → rstrip (s ++ " ") ≡ rstrip s
unfolding rstrip is_space
rstrip-space [] = refl
rstrip-space (x ∷ s) = rw (cons-append, rstrip, rstrip-space s) refl

ends_with_bracket-append : (s : String) → ends_with_bracket (s ++ "]") ≡ true
unfolding ends_with_bracket
ends_with_bracket-append [] = refl
ends_with_bracket-append (x ∷ s) =
    rw (cons-append, ends_with_bracket, nonblank-append s "]" "") (ends_with_bracket-append s)

has_code-append :
    (c : ℕ) (s : String) (x : Char) (t : String) → code x ≡ c → has_code c (s ++ (x ∷ t)) ≡ true
has_code-append c [] x t h = rw nil-append (ground arith)
has_code-append c (y ∷ s) x t h = rw cons-append (ground (arith, has_code-append c s x t h))

no_code-append :
    (c : ℕ) (s t : String)
    → has_code c s ≡ false
    → has_code c t ≡ false
    → has_code c (s ++ t) ≡ false
no_code-append c [] t h g = rw nil-append g
no_code-append c (x ∷ s) t h g = rw cons-append (ground (arith, no_code-append c s t))

one-append : (x : Char) (t : String) → (x ∷ "") ++ t ≡ x ∷ t
one-append x t = cons-append x "" t ∙ ap (λ r. x ∷ r) (nil-append t)

all_but_last-append : (s : String) → all_but_last (s ++ "]") ≡ s
all_but_last-append [] = refl
all_but_last-append (x ∷ []) = ap all_but_last (one-append x "]")
all_but_last-append (x ∷ y ∷ s) =
    rw (cons-append, cons-append)
      (ap (λ r. x ∷ r) (ap all_but_last (sym (cons-append y s "]")) ∙ all_but_last-append (y ∷ s)))

strip-space : (s : String) → IsTrimmed s → strip (s ++ " ") ≡ s
unfolding strip
strip-space s t = rw (lstrip-append s " " t.nonempty t.at_start, rstrip-space s) t.at_end

module _ (m : ModelInfo) where
  -- The display name, cut at its last bracket, and behind everything but its last character.
  display-split : display_name m ≡ (m.name ++ " ") ++ ("[" ∷ (m.provider_id ++ "]"))
  unfolding display_name
  display-split =
      let rest = m.provider_id ++ "]" in
      ap (λ r. m.name ++ r)
        (cons-append " " "[" rest
          ∙ ap (λ r. " " ∷ r) (one-append "[" rest)
          ∙ sym (one-append " " ("[" ∷ rest)))
      ∙ sym (append_assoc m.name " " ("[" ∷ rest))

  display-ends : display_name m ≡ (m.name ++ (" [" ++ m.provider_id)) ++ "]"
  unfolding display_name
  display-ends = sym (
      append_assoc m.name (" [" ++ m.provider_id) "]"
      ∙ ap (λ r. m.name ++ r) (append_assoc " [" m.provider_id "]"))

  strip-display_name : IsTrimmed m.name → strip (display_name m) ≡ display_name m
  unfolding strip display_name
  strip-display_name t =
      ap rstrip (lstrip-append m.name _ t.nonempty t.at_start)
      ∙ ap rstrip display-ends
      ∙ rstrip-bracket (m.name ++ (" [" ++ m.provider_id))
      ∙ sym display-ends

-- A display name `name [provider]` parses back into the name and the provider, if neither is empty
-- or has white space at its ends and the provider has no opening bracket.
pub parse_fully_qualified_name-display_name :
    (m : ModelInfo)
    → IsTrimmed m.name
    → IsTrimmed m.provider_id
    → has_code b'[' m.provider_id ≡ false
    → parse_fully_qualified_name (display_name m) ≡ some (m.name, m.provider_id)
unfolding parse_fully_qualified_name split_name
parse_fully_qualified_name-display_name m name provider plain =
    let rest = m.provider_id ++ "]" in
    let found =
      split_last_found b'[' "[" (m.name ++ " ") rest refl
        (no_code-append b'[' m.provider_id "]" plain refl) in
    let ends : ends_with_bracket (display_name m) ≡ true =
      rw (display-ends m) (ends_with_bracket-append (m.name ++ (" [" ++ m.provider_id))) in
    let opens : has_code b'[' (display_name m) ≡ true =
      rw (display-split m) (has_code-append b'[' (m.name ++ " ") "[" rest refl) in
    rw (
      strip-display_name m name,
      ends,
      opens,
      display-split m,
      found,
      strip-space m.name name,
      all_but_last-append m.provider_id,
      strip-IsTrimmed m.provider_id provider,
      name.nonempty,
      provider.nonempty,
    )
