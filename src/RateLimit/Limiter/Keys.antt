-- ===== src/RateLimit/Limiter/Keys.antt =====
-- Bucket keys tell callers apart.
use Prim.Native.Char.{code}
use Prim.Native.String
use Prim.Native.String.{[], ◌∷◌}
use text.Mathlib.TextLemmas.{nil-append, cons-append, append_cancel_left}
use smol_router.Prelude.{ℕ, String, ◌≡◌, refl, ◌≢◌, Option, some, arith, ok, ap, sym, ◌∙◌}
use smol_router.RateLimit.Limiter.{canonical, key_text, request_rate_limit_bucket_key}

-- The identity kinds of the program, such as `facade_key`, hold no colon.
abbrev pub NoColon : String → Type 0
NoColon [] = Unit
NoColon (c ∷ s) = (code c ≢ b':') × NoColon s

abbrev first_code : String → ℕ
first_code [] = 0
first_code (c ∷ s) = code c

abbrev rest_of : String → String
rest_of [] = []
rest_of (c ∷ s) = s

colon-append : (s : String) → String.◌++◌ ":" s ≡ ":" ∷ s
colon-append s = simp (cons-append ":" "" s, nil-append)

-- A kind without a colon ends at the first colon of the canonical text.
canonical_inj :
    (k j s t : String) → NoColon k → NoColon j → canonical k s ≡ canonical j t → (k ≡ j) × (s ≡ t)
unfolding canonical
canonical_inj [] [] s t h g e =
    (refl, append_cancel_left ":" s t (sym (nil-append _) ∙ e ∙ nil-append _))
canonical_inj [] (c ∷ j) s t h g e =
    let heads = ap first_code (simp (nil-append, cons-append, colon-append) at e) in
    absurd (g.0 (sym heads))
canonical_inj (c ∷ k) [] s t h g e =
    let heads = ap first_code (simp (nil-append, cons-append, colon-append) at e) in
    absurd (h.0 heads)
canonical_inj (c ∷ k) (d ∷ j) s t h g e =
    let parts = simp cons-append at e in
    let ih = canonical_inj k j s t h.1 g.1 (ap rest_of parts) in (cc, ih.1)

key_text_inj : (c d e : String) → key_text c d ≡ key_text c e → d ≡ e
unfolding key_text
key_text_inj c d e h =
    append_cancel_left ":" d e (append_cancel_left c _ _ (append_cancel_left _ _ _ h))

key_text_classes : (d e : String) → key_text "anonymous" d ≢ key_text "project" e
unfolding key_text
key_text_classes d e h =
    let classes = append_cancel_left "smolrouter:request-rate-limit:bucket:" _ _ h in
    let heads = ap first_code (
      simp
        (
          cons-append "a" "nonymous" (String.◌++◌ ":" d),
          cons-append "p" "roject" (String.◌++◌ ":" e),
        )
        at classes) in
    absurd (omega arith)

module _ (sha256 : String → String)
    (collision_free : (a b : String) → sha256 a ≡ sha256 b → a ≡ b) where
  project_key :
      (k s key : String)
      → request_rate_limit_bucket_key sha256 "project" (some k) (some s) ≡ ok key
      → key ≡ key_text "project" (sha256 (canonical k s))
  unfolding request_rate_limit_bucket_key
  project_key k s key h = ground arith

  anonymous_key :
      (kind subject : Option String) (key : String)
      → request_rate_limit_bucket_key sha256 "anonymous" kind subject ≡ ok key
      → key ≡ key_text "anonymous" (sha256 "anonymous:global")
  unfolding request_rate_limit_bucket_key
  anonymous_key kind subject key h = ground arith

  -- Two project callers that share a bucket key are one caller, if no identity kind holds a colon
  -- and SHA-256 has no collision.
  pub bucket_key_inj :
      (k j s t key : String)
      → NoColon k
      → NoColon j
      → request_rate_limit_bucket_key sha256 "project" (some k) (some s) ≡ ok key
      → request_rate_limit_bucket_key sha256 "project" (some j) (some t) ≡ ok key
      → (k ≡ j) × (s ≡ t)
  bucket_key_inj k j s t key h g e f = canonical_inj k j s t h g (
      collision_free _ _
        (key_text_inj "project" _ _ (sym (project_key k s key e) ∙ project_key j t key f)))

-- No project caller shares the bucket of the anonymous callers, whatever the digest function.
pub bucket_key_classes :
    (sha256 : String → String) (kind subject : Option String) (k s key : String)
    → request_rate_limit_bucket_key sha256 "anonymous" kind subject ≡ ok key
    → request_rate_limit_bucket_key sha256 "project" (some k) (some s) ≢ ok key
unfolding request_rate_limit_bucket_key
bucket_key_classes sha256 kind subject k s key e f =
    key_text_classes (sha256 "anonymous:global") (sha256 (canonical k s)) (ground arith)
