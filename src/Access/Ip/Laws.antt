-- ===== src/Access/Ip/Laws.antt =====
-- What the IP rules let through.
use smol_router.Prelude.{
  ◌∙◌, sym, String, ◌≡◌, refl, inl, inr, Bool, true, false, not, ◌&&◌, ◌||◌, Option, none, some,
  List, [], ◌∷◌, arith, filter, any, is_empty, In, filter-ext, any-of_In, Bool-cases,
}
use smol_router.ModelInfo.{ModelInfo, identifiers}
use smol_router.Access.Patterns.{PatternEngine, Compiled}
use smol_router.Access.Ip.{
  Rule, matches_model_pattern, find_matching_rule, matches_any, is_model_allowed, is_model_denied,
  filter_by_rule, filter_models, can_access_model,
}

In-nonempty : {A : Type 0} (x : A) (l : List A) → In x l → is_empty l ≡ false
In-nonempty x [] m = absurd m
In-nonempty x (y ∷ l) m = refl

module _ (E : PatternEngine) where
  -- The verdict on one model, read off the first rule that matches the address.
  abbrev pub passes : Option Rule → ModelInfo → Bool
  passes none m = true
  passes (some rule) m =
      (rule.allow_all || is_model_allowed E m rule) && not (is_model_denied E m rule)

  filter_all : (l : List ModelInfo) → filter (λ m. true) l ≡ l
  filter_all [] = refl
  filter_all (m ∷ l) = rw (filter_all l)

  pub filter_by_rule-passes :
      (rule : Option Rule) (l : List ModelInfo) → filter_by_rule E rule l ≡ filter (passes rule) l
  unfolding filter_by_rule
  filter_by_rule-passes none l = rw (filter_all l)
  filter_by_rule-passes (some rule) l = elim (Bool-cases (rule.allow_all)) [
    | inl everything ↦ rw everything
    | inr listed ↦ rw listed
  ]

  module _ (rules : List Rule) (ip : String) where
    pub can_access-passes :
        (m : ModelInfo) → can_access_model E rules ip m ≡ passes (find_matching_rule E ip rules) m
    unfolding can_access_model filter_models
    can_access-passes m =
        rw (filter_by_rule-passes (find_matching_rule E ip rules) (m ∷ [])) (ground arith)

    pub ip_filter_eq :
        (l : List ModelInfo) → filter_models E rules ip l ≡ filter (can_access_model E rules ip) l
    unfolding filter_models
    ip_filter_eq l =
        filter_by_rule-passes (find_matching_rule E ip rules) l
        ∙ filter-ext _ (can_access_model E rules ip) l (λ m. sym (can_access-passes m))

    -- A deny pattern of the client's rule hides every model that it matches by any identifier,
    -- whatever the rule allows.
    pub ip_deny_wins :
        (m : ModelInfo) (rule : Rule) (c : Compiled) (s : String)
        → find_matching_rule E ip rules ≡ some rule
        → In c rule.denied_models
        → In s (identifiers m)
        → matches_model_pattern E s c ≡ true
        → can_access_model E rules ip m ≡ false
    unfolding is_model_denied matches_any
    ip_deny_wins m rule c s found denies names hit =
        let one = any-of_In (λ i. matches_model_pattern E i c) s (identifiers m) names hit in
        let some_pattern =
          any-of_In (λ d. any (λ i. matches_model_pattern E i d) (identifiers m)) c
            rule.denied_models denies one in
        let listed : is_empty rule.denied_models ≡ false =
          In-nonempty c rule.denied_models denies in
        rw (can_access-passes m, found) (ground arith)
