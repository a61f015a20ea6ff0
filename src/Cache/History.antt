-- ===== src/Cache/History.antt =====
-- The cache against its history: what a lookup finds is decided by the last write alone, whatever
-- lookups and cleanups came between.
use Prim.Native.String
use text.Mathlib.TextLemmas.{append_cancel_left}
use smol_router.Prelude.{
  DistinctKeys, put-DistinctKeys, delete-DistinctKeys, ℕ, ◌-◌, ◌≤◌, String, ◌≡◌, refl, sym, ap, ◌∙◌,
  inl, inr, true, Option, none, some, List, [], ◌∷◌, arith, ltb, if◌then◌else◌, str_eq, eq_iff,
  Bool-cases, Option-cases, Dict, get, get-put, get-delete, or_else, is_some,
}
use smol_router.ModelInfo.{ModelInfo}
use smol_router.Cache.{
  CacheEntry, age_seconds, is_expired, touch, InMemoryModelCache, cache_key, found,
  get_cached_models, cache_models, invalidate_cache, expired_keys, delete_all, cleanup_expired,
  is_live, is_cache_valid,
}
use smol_router.Cache.Keys.{delete_all-DistinctKeys, get-delete_all, missing_key, expired_key}

pub data Call : Type 0 where
  store : (provider_id : String) (models : List ModelInfo) (ttl : Option ℕ) → Call
  invalidate : (provider_id : Option String) → Call
  lookup : (provider_id : String) → Call
  cleanup : Call

unfoldable pub step_call : ℕ → Call → InMemoryModelCache → InMemoryModelCache
step_call now (store p models ttl) c = cache_models now p models ttl c
step_call now (invalidate p) c = invalidate_cache p c
step_call now (lookup p) c = (get_cached_models now p c).1
step_call now cleanup c = cleanup_expired now c

-- Calls with their times, the newest first.
abbrev pub History : Type 0
History = List (ℕ × Call)

abbrev pub InOrder : ℕ → History → Type 0
InOrder now [] = Unit
InOrder now ((t, call) ∷ h) = (t ≤ now) × InOrder t h

unfoldable pub run : ℕ → History → InMemoryModelCache
run default_ttl [] = record { default_ttl = default_ttl; entries = [] }
run default_ttl ((t, call) ∷ h) = step_call t call (run default_ttl h)

pub record Written : Type 0 where
  pub models : List ModelInfo
  pub at_time : ℕ
  pub lifetime : ℕ

-- The last write for a provider that no invalidation undid.
unfoldable pub last_write : ℕ → String → History → Option Written
last_write default_ttl p [] = none
last_write default_ttl p ((t, store q models ttl) ∷ h) =
    if str_eq q p
    then some (record { models = models; at_time = t; lifetime = or_else ttl default_ttl })
    else last_write default_ttl p h
last_write default_ttl p ((t, invalidate none) ∷ h) = none
last_write default_ttl p ((t, invalidate (some q)) ∷ h) =
    if str_eq q p then none else last_write default_ttl p h
last_write default_ttl p ((t, lookup q) ∷ h) = last_write default_ttl p h
last_write default_ttl p ((t, cleanup) ∷ h) = last_write default_ttl p h

-- The models of a write whose lifetime is not over.
abbrev pub fresh : ℕ → Option Written → Option (List ModelInfo)
fresh now none = none
fresh now (some w) = if ltb w.lifetime (now - w.at_time) then none else some w.models

abbrev view : ℕ → Option CacheEntry → Option (List ModelInfo)
view now none = none
view now (some e) = if is_expired now e then none else some e.data_models

cache_key_eq : (p q : String) → str_eq (cache_key p) (cache_key q) ≡ str_eq p q
unfolding cache_key
cache_key_eq p q = ground (
  arith,
  eq_iff p q,
  eq_iff (String.◌++◌ "models:" p) (String.◌++◌ "models:" q),
  append_cancel_left "models:" p q,
)

-- An entry that has expired stays expired.
expired_later :
    (t now : ℕ) (e : CacheEntry) → t ≤ now → is_expired t e ≡ true → is_expired now e ≡ true
unfolding is_expired age_seconds
expired_later t now e le h = ground arith

view_expired :
    (t now : ℕ) (e : CacheEntry) → t ≤ now → is_expired t e ≡ true → view now (some e) ≡ none
view_expired t now e le h = rw (expired_later t now e le h)

view-touch : (t now : ℕ) (e : CacheEntry) → view now (some (touch t e)) ≡ view now (some e)
unfolding touch is_expired age_seconds
view-touch t now e = refl

module _ (t now : ℕ) (le : t ≤ now) where
  -- Neither a lookup nor a cleanup changes what a later lookup finds.
  view-found :
      (key j : String) (d : Dict CacheEntry)
      → view now (get j (found t key (get key d) d).1) ≡ view now (get j d)
  view-found key j d = elim (Option-cases (get key d)) [
    | inl missed ↦ rw missed
    | inr (e, hit) ↦ elim (Bool-cases (str_eq key j)) [
      | inl same ↦
          let is_key : key ≡ j = (eq_iff key j).0 same in
          elim (Bool-cases (is_expired t e)) [
            | inl old ↦
                rw (hit, old, get-delete key j d, same, ← is_key, hit)
                  (sym (view_expired t now e le old))
            | inr live ↦
                rw (hit, live, get-put key j (touch t e) d, same, ← is_key, hit)
                  (view-touch t now e)
          ]
      | inr other ↦ elim (Bool-cases (is_expired t e)) [
        | inl old ↦ rw (hit, old, get-delete key j d, other)
        | inr live ↦ rw (hit, live, get-put key j (touch t e) d, other)
      ]
    ]
  ]

  view-cleanup :
      (j : String) (d : Dict CacheEntry)
      → DistinctKeys d
      → view now (get j (delete_all (expired_keys t d) d)) ≡ view now (get j d)
  view-cleanup j d a = elim (Option-cases (get j d)) [
    | inl missed ↦ rw (get-delete_all j (expired_keys t d) d, missing_key t j d missed)
    | inr (e, hit) ↦ elim (Bool-cases (is_expired t e)) [
      | inl old ↦
          rw (get-delete_all j (expired_keys t d) d, expired_key t j e d a hit, old, hit)
            (sym (view_expired t now e le old))
      | inr live ↦ rw (get-delete_all j (expired_keys t d) d, expired_key t j e d a hit, live)
    ]
  ]

default_ttl-run : (default_ttl : ℕ) (h : History) → (run default_ttl h).default_ttl ≡ default_ttl
unfolding run step_call cache_models invalidate_cache get_cached_models cleanup_expired
default_ttl-run default_ttl [] = refl
default_ttl-run default_ttl ((t, store p models ttl) ∷ h) = default_ttl-run default_ttl h
default_ttl-run default_ttl ((t, invalidate none) ∷ h) = default_ttl-run default_ttl h
default_ttl-run default_ttl ((t, invalidate (some p)) ∷ h) = default_ttl-run default_ttl h
default_ttl-run default_ttl ((t, lookup p) ∷ h) = default_ttl-run default_ttl h
default_ttl-run default_ttl ((t, cleanup) ∷ h) = default_ttl-run default_ttl h

found-DistinctKeys :
    (t : ℕ) (key : String) (o : Option CacheEntry) (d : Dict CacheEntry)
    → DistinctKeys d
    → DistinctKeys (found t key o d).1
found-DistinctKeys t key none d a = a
found-DistinctKeys t key (some e) d a = elim (Bool-cases (is_expired t e)) [
  | inl old ↦ rw old (delete-DistinctKeys key d a)
  | inr live ↦ rw live (put-DistinctKeys key (touch t e) d a)
]

run-DistinctKeys : (default_ttl : ℕ) (h : History) → DistinctKeys (run default_ttl h).entries
unfolding run step_call cache_models invalidate_cache get_cached_models cleanup_expired
run-DistinctKeys n [] = tt
run-DistinctKeys n ((t, store p models ttl) ∷ h) =
    put-DistinctKeys (cache_key p) _ (run n h).entries (run-DistinctKeys n h)
run-DistinctKeys n ((t, invalidate none) ∷ h) = tt
run-DistinctKeys n ((t, invalidate (some p)) ∷ h) =
    delete-DistinctKeys (cache_key p) (run n h).entries (run-DistinctKeys n h)
run-DistinctKeys n ((t, lookup p) ∷ h) =
    found-DistinctKeys t (cache_key p) (get (cache_key p) (run n h).entries) (run n h).entries
      (run-DistinctKeys n h)
run-DistinctKeys n ((t, cleanup) ∷ h) =
    delete_all-DistinctKeys (expired_keys t (run n h).entries) (run n h).entries
      (run-DistinctKeys n h)

InOrder-le : (t now : ℕ) (h : History) → t ≤ now → InOrder t h → InOrder now h
InOrder-le t now [] le o = tt
InOrder-le t now ((u, call) ∷ h) le o = (omega arith, o.1)

view-run :
    (n now : ℕ) (p : String) (h : History)
    → InOrder now h
    → view now (get (cache_key p) (run n h).entries) ≡ fresh now (last_write n p h)
unfolding run step_call cache_models invalidate_cache get_cached_models cleanup_expired last_write
    get is_expired age_seconds
view-run n now p [] o = refl
view-run n now p ((t, store q models ttl) ∷ h) o =
    let ih = view-run n now p h (InOrder-le t now h o.0 o.1) in
    rw
      (
        get-put (cache_key q) (cache_key p) _ (run n h).entries,
        cache_key_eq q p,
        default_ttl-run n h,
      )
      (elim (Bool-cases (str_eq q p)) [ inl hit ↦ rw hit | inr miss ↦ rw miss ih ])
view-run n now p ((t, invalidate none) ∷ h) o = refl
view-run n now p ((t, invalidate (some q)) ∷ h) o =
    let ih = view-run n now p h (InOrder-le t now h o.0 o.1) in
    rw (get-delete (cache_key q) (cache_key p) (run n h).entries, cache_key_eq q p)
      (elim (Bool-cases (str_eq q p)) [ inl hit ↦ rw hit | inr miss ↦ rw miss ih ])
view-run n now p ((t, lookup q) ∷ h) o =
    view-found t now o.0 (cache_key q) (cache_key p) (run n h).entries
    ∙ view-run n now p h (InOrder-le t now h o.0 o.1)
view-run n now p ((t, cleanup) ∷ h) o =
    view-cleanup t now o.0 (cache_key p) (run n h).entries (run-DistinctKeys n h)
    ∙ view-run n now p h (InOrder-le t now h o.0 o.1)

found-view :
    (now : ℕ) (key : String) (o : Option CacheEntry) (d : Dict CacheEntry)
    → (found now key o d).0 ≡ view now o
found-view now key none d = refl
found-view now key (some e) d = elim (Bool-cases (is_expired now e)) [
  | inl old ↦ rw old
  | inr live ↦ rw live
]

view-live : (now : ℕ) (o : Option CacheEntry) → is_live now o ≡ is_some (view now o)
view-live now none = refl
view-live now (some e) = ground arith

module _ (default_ttl now : ℕ) (p : String) (h : History) where
  -- After any calls in the order of time, a lookup finds the models that the provider's last write
  -- stored, if no invalidation undid it and its lifetime is not over, and nothing otherwise:
  -- lookups, cleanups and the writes for other providers do not matter.
  pub get_cached_models-run :
      InOrder now h
      → (get_cached_models now p (run default_ttl h)).0 ≡ fresh now (last_write default_ttl p h)
  unfolding get_cached_models
  get_cached_models-run o =
      found-view now (cache_key p) (get (cache_key p) (run default_ttl h).entries)
        (run default_ttl h).entries
      ∙ view-run default_ttl now p h o

-- Whatever the cache holds, it is valid for a provider exactly when a lookup finds its models.
pub is_cache_valid-get_cached_models :
    (now : ℕ) (p : String) (c : InMemoryModelCache)
    → is_cache_valid now p c ≡ is_some (get_cached_models now p c).0
unfolding is_cache_valid get_cached_models
is_cache_valid-get_cached_models now p c =
    view-live now (get (cache_key p) c.entries)
    ∙ ap is_some (sym (found-view now (cache_key p) (get (cache_key p) c.entries) c.entries))
