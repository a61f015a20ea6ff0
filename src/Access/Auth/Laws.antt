-- ===== src/Access/Auth/Laws.antt =====
-- What the authentication rules let through, and the list of roles that grows.
use smol_router.Prelude.{
  String, str_eq, ◌≡◌, refl, ap, ◌∙◌, sym, Bool, true, false, not, ◌&&◌, ◌||◌, Option, none, some,
  List, [], ◌∷◌, ◌++◌, arith, filter, is_empty, In, any-of_In, filter-ext, Bool-cases, Dict, get,
  or_else, inl, inr,
}
use smol_router.ModelInfo.{ModelInfo, identifiers}
use smol_router.Access.Patterns.{PatternEngine}
use smol_router.Access.Auth.{
  RoleClaim, one, many, Payload, AuthRules, AuthConfig, user_id, claimed, stored_roles,
  get_user_roles, override, update, override, update_by, apply_roles, rules_of_user,
  find_applicable_rules, matches_pattern, matches_any_pattern, no_rules, filter_by_rules, rules_for,
  filter_models, can_access_model,
}

module _ (E : PatternEngine) where
  abbrev pub passes : AuthRules → ModelInfo → Bool
  passes r m =
      no_rules E r
      || ((or_else r.allow_all false || matches_any_pattern E m (or_else r.allowed_models []))
          && not (matches_any_pattern E m (or_else r.denied_models [])))

  filter_const :
      (l : List ModelInfo) (p : ModelInfo → Bool) → ((m : ModelInfo) → p m ≡ true) → filter p l ≡ l
  filter_const [] p h = refl
  filter_const (m ∷ l) p h = rw (h m, filter_const l p h)

  nothing_denied :
      (m : ModelInfo) (d : List String) → is_empty d ≡ true → matches_any_pattern E m d ≡ false
  unfolding matches_any_pattern
  nothing_denied m [] h = refl
  nothing_denied m (p ∷ d) h = cc

  pub filter_by_rules-passes :
      (r : AuthRules) (l : List ModelInfo) → filter_by_rules E r l ≡ filter (passes r) l
  unfolding filter_by_rules
  filter_by_rules-passes r l = elim (Bool-cases (no_rules E r)) [
    | inl blank ↦ rw blank (sym (filter_const l (passes r) (λ m. ground arith)))
    | inr given ↦
        elim (Bool-cases (or_else r.allow_all false && is_empty (or_else r.denied_models []))) [
          | inl open_rule ↦
              rw (given, open_rule)
                (sym (
                  filter_const l _
                    (λ m. ground (arith, nothing_denied m (or_else r.denied_models [])))))
          | inr listed ↦ rw (given, listed) (filter-ext _ (passes r) l (λ m. ground arith))
        ]
  ]

  module _ (c : AuthConfig) (p : Option Payload) where
    pub can_access-passes : (m : ModelInfo) → can_access_model E c p m ≡ passes (rules_for E c p) m
    unfolding can_access_model filter_models
    can_access-passes m = rw (filter_by_rules-passes (rules_for E c p) (m ∷ [])) (ground arith)

    pub auth_filter_eq :
        (l : List ModelInfo) → filter_models E c p l ≡ filter (can_access_model E c p) l
    unfolding filter_models
    auth_filter_eq l =
        filter_by_rules-passes (rules_for E c p) l
        ∙ filter-ext _ (can_access_model E c p) l (λ m. sym (can_access-passes m))

  find_applicable_rules-denied :
      (c : AuthConfig) (p : Payload) (user : String) (rules : AuthRules) (denied : List String)
      → user_id p ≡ some user
      → str_eq user "" ≡ false
      → get user c.user_rules ≡ some rules
      → rules.denied_models ≡ some denied
      → (find_applicable_rules c p).denied_models ≡ some denied
  unfolding find_applicable_rules rules_of_user update
  find_applicable_rules-denied c p user rules denied is named found denies =
      rw (is, named, found, denies)

  -- A deny pattern among a user's own rules that matches the model by any identifier keeps the user
  -- from the model, whatever the default rules and the rules of the user's roles allow.
  pub user_deny_wins :
      (c : AuthConfig) (p : Payload) (user : String) (rules : AuthRules) (denied : List String)
      (pattern : String) (m : ModelInfo)
      → user_id p ≡ some user
      → str_eq user "" ≡ false
      → get user c.user_rules ≡ some rules
      → rules.denied_models ≡ some denied
      → In pattern denied
      → matches_pattern E pattern (identifiers m) ≡ true
      → can_access_model E c (some p) m ≡ false
  unfolding matches_any_pattern rules_for
  user_deny_wins c p user rules denied pattern m is named found denies listed hit =
      let set = find_applicable_rules-denied c p user rules denied is named found denies in
      let matched =
        any-of_In (λ d. matches_pattern E d (identifiers m)) pattern denied listed hit in
      rw (can_access-passes c (some p) m, set) (ground arith)

or_assoc : (a b c : Bool) → (a || b) || c ≡ a || (b || c)
or_assoc true b c = refl
or_assoc false b c = refl

or_false : (a : Bool) → (a || false) ≡ a
or_false true = refl
or_false false = refl

or_twice : (a b : Bool) → (a || b) || b ≡ a || b
or_twice true b = refl
or_twice false true = refl
or_twice false false = refl

apply_roles-append :
    (d : Dict AuthRules) (r : AuthRules) (a b : List String)
    → apply_roles d r (a ++ b) ≡ apply_roles d (apply_roles d r a) b
unfolding apply_roles
apply_roles-append d r [] b = refl
apply_roles-append d r (x ∷ a) b = apply_roles-append d (update_by r (get x d)) a b

abbrev blank_rules : AuthRules
blank_rules = record {
  allowed_models = none;
  denied_models = none;
  allow_all = none;
  others = false;
}

override_assoc :
    {A : Type 0} (a b c : Option A) → override (override a b) c ≡ override a (override b c)
override_assoc a b none = refl
override_assoc a b (some x) = refl

override_twice : {A : Type 0} (a b : Option A) → override (override a b) b ≡ override a b
override_twice a none = refl
override_twice a (some x) = refl

update_assoc : (a b c : AuthRules) → update (update a b) c ≡ update a (update b c)
unfolding update
update_assoc a b c = rw (
  override_assoc a.allowed_models b.allowed_models c.allowed_models,
  override_assoc a.denied_models b.denied_models c.denied_models,
  override_assoc a.allow_all b.allow_all c.allow_all,
  or_assoc a.others b.others c.others,
)

update_twice : (a b : AuthRules) → update (update a b) b ≡ update a b
unfolding update
update_twice a b = rw (
  override_twice a.allowed_models b.allowed_models,
  override_twice a.denied_models b.denied_models,
  override_twice a.allow_all b.allow_all,
  or_twice a.others b.others,
)

update-blank : (r : AuthRules) → update r blank_rules ≡ r
unfolding update
update-blank r = rw (or_false r.others)

update_by-update :
    (r : AuthRules) (o : Option AuthRules) → update_by r o ≡ update r (update_by blank_rules o)
update_by-update r none = sym (update-blank r)
update_by-update r (some m) =
    ap (λ u. update u m) (sym (update-blank r)) ∙ update_assoc r blank_rules m

-- The rules that a list of roles adds to any rules before it.
apply_roles-update :
    (d : Dict AuthRules) (r : AuthRules) (l : List String)
    → apply_roles d r l ≡ update r (apply_roles d blank_rules l)
unfolding apply_roles
apply_roles-update d r [] = sym (update-blank r)
apply_roles-update d r (x ∷ l) =
    apply_roles-update d (update_by r (get x d)) l
    ∙ ap (λ u. update u (apply_roles d blank_rules l)) (update_by-update r (get x d))
    ∙ update_assoc r (update_by blank_rules (get x d)) (apply_roles d blank_rules l)
    ∙ ap (update r) (sym (apply_roles-update d (update_by blank_rules (get x d)) l))

-- Applying the same roles once more changes nothing.
apply_roles_twice :
    (d : Dict AuthRules) (r : AuthRules) (l : List String)
    → apply_roles d (apply_roles d r l) l ≡ apply_roles d r l
apply_roles_twice d r l =
    rw (apply_roles-update d (apply_roles d r l) l, apply_roles-update d r l)
      (update_twice r (apply_roles d blank_rules l))

roles_again :
    (d : Dict AuthRules) (r : AuthRules) (a : Option RoleClaim) (l : List String)
    → apply_roles d r (claimed (stored_roles a (claimed a ++ l)) ++ l)
      ≡ apply_roles d r (claimed a ++ l)
unfolding stored_roles
roles_again d r none l = refl
roles_again d r (some (one x)) l = refl
roles_again d r (some (many xs)) l =
    apply_roles-append d r (xs ++ l) l
    ∙ ap (λ u. apply_roles d u l) (apply_roles-append d r xs l)
    ∙ apply_roles_twice d (apply_roles d r xs) l
    ∙ sym (apply_roles-append d r xs l)

-- After one look at a payload, which may leave its list of roles longer, a further look at the
-- payload as it was left finds the same rules.
pub find_applicable_rules_again :
    (c : AuthConfig) (p : Payload)
    → find_applicable_rules c (get_user_roles p).1 ≡ find_applicable_rules c p
unfolding find_applicable_rules get_user_roles user_id
find_applicable_rules_again c p =
    ap (λ r. update_by r (rules_of_user c (user_id p)))
      (roles_again c.role_rules c.default_rules p.roles (claimed p.role))
