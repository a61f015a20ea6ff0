-- ===== src/Strategy/Names/Strip.antt =====
-- A stripped text is not changed by `strip`.
use Prim.Native.Char.{code}
use Prim.Native.String.{String, [], ◌∷◌}
use smol_router.Prelude.{◌≡◌, refl, ap, ◌∙◌, false, ◌&&◌, inl, inr, Bool-cases}
use smol_router.LoadBalancer.Names.{is_blank}
use smol_router.Strategy.Names.{is_space, lstrip, rstrip, strip}
use smol_router.Strategy.Names.Laws.{starts_with_space}

lstrip-starts : (s : String) → starts_with_space (lstrip s) ≡ false
unfolding lstrip
lstrip-starts [] = refl
lstrip-starts (x ∷ s) = elim (Bool-cases (is_space (code x))) [
  | inl space ↦ rw space (lstrip-starts s)
  | inr dark ↦ rw dark dark
]

rstrip-starts : (s : String) → starts_with_space s ≡ false → starts_with_space (rstrip s) ≡ false
unfolding rstrip
rstrip-starts [] h = refl
rstrip-starts (x ∷ s) h = elim (Bool-cases (is_blank (rstrip s) && is_space (code x))) [
  | inl cut ↦ rw cut refl
  | inr kept ↦ rw kept h
]

lstrip-at_start : (s : String) → starts_with_space s ≡ false → lstrip s ≡ s
unfolding lstrip
lstrip-at_start [] h = refl
lstrip-at_start (x ∷ s) h = rw h refl

rstrip-rstrip : (s : String) → rstrip (rstrip s) ≡ rstrip s
unfolding rstrip
rstrip-rstrip [] = refl
rstrip-rstrip (x ∷ s) = elim (Bool-cases (is_blank (rstrip s) && is_space (code x))) [
  | inl cut ↦ rw cut refl
  | inr kept ↦ rw (kept, rstrip-rstrip s, kept) refl
]

pub strip-strip : (s : String) → strip (strip s) ≡ strip s
unfolding strip
strip-strip s =
    ap rstrip (lstrip-at_start (rstrip (lstrip s)) (rstrip-starts (lstrip s) (lstrip-starts s)))
    ∙ rstrip-rstrip (lstrip s)
