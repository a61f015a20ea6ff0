-- ===== src/Cache/Keys.antt =====
-- The keys of the cache: none is there twice, so a cleanup deletes just the expired entries.
use smol_router.Prelude.{
  ℕ, String, ◌≡◌, refl, sym, inl, inr, false, none, some, List, [], ◌∷◌, arith, if◌then◌else◌,
  str_eq, eq_iff, any, Bool-cases, Dict, get, delete, get-delete, DistinctKeys, delete-DistinctKeys,
}
use smol_router.Cache.{CacheEntry, is_expired, expired_keys, delete_all}

pub delete_all-DistinctKeys :
    (keys : List String) (d : Dict CacheEntry) → DistinctKeys d → DistinctKeys (delete_all keys d)
unfolding delete_all
delete_all-DistinctKeys [] d a = a
delete_all-DistinctKeys (k ∷ keys) d a =
    delete_all-DistinctKeys keys (delete k d) (delete-DistinctKeys k d a)

pub get-delete_all :
    (j : String) (keys : List String) (d : Dict CacheEntry)
    → get j (delete_all keys d) ≡ (if any (str_eq j) keys then none else get j d)
unfolding delete_all
get-delete_all j [] d = refl
get-delete_all j (k ∷ keys) d =
    ground (arith, get-delete_all j keys (delete k d), get-delete k j d, eq_iff k j, eq_iff j k)

pub missing_key :
    (now : ℕ) (j : String) (d : Dict CacheEntry)
    → get j d ≡ none
    → any (str_eq j) (expired_keys now d) ≡ false
unfolding expired_keys get
missing_key now j [] h = refl
missing_key now j ((k, e) ∷ d) h = ground (arith, missing_key now j d, eq_iff k j, eq_iff j k)

pub expired_key :
    (now : ℕ) (j : String) (e : CacheEntry) (d : Dict CacheEntry)
    → DistinctKeys d
    → get j d ≡ some e
    → any (str_eq j) (expired_keys now d) ≡ is_expired now e
unfolding expired_keys get
expired_key now j e [] a h = cc
expired_key now j e ((k, f) ∷ d) a h = elim (Bool-cases (str_eq k j)) [
  | inl same ↦
      let is : f ≡ e = ground arith in
      let is_key : k ≡ j = (eq_iff k j).0 same in
      let absent : get j d ≡ none = rw (← is_key) a.0 in
      rw (← is) (ground (arith, missing_key now j d absent, eq_iff j k, sym is_key))
  | inr other ↦
      let there : get j d ≡ some e = ground arith in
      ground (arith, expired_key now j e d a.1 there, eq_iff k j, eq_iff j k)
]
