-- ===== src/Funnel/Window.antt =====
-- The timestamps that a pass keeps are those in the window.
use smol_router.Prelude.{
  ℕ, ◌+◌, ◌-◌, ◌≤◌, ◌<◌, ◌≡◌, refl, ap, Bool, true, List, [], ◌∷◌, ◌++◌, arith, ltb, if◌then◌else◌,
  length, count, All, Bool-cases, inl, inr,
}
use smol_router.RateLimit.Window.{inside, IsAscending}
use smol_router.Funnel.{drop_old, Pass, recorded, wait, no_oldest, full}

pub length-drop_old : (now w : ℕ) (ts : List ℕ) → length (drop_old now w ts) ≤ length ts
unfolding drop_old
length-drop_old now w [] = omega arith
length-drop_old now w (t ∷ ts) = ground (arith, length-drop_old now w ts)

pub count-drop_old :
    (now u w : ℕ) (ts : List ℕ)
    → now ≤ u
    → count (inside u (w + 1)) (drop_old now w ts) ≡ count (inside u (w + 1)) ts
unfolding drop_old
count-drop_old now u w [] le = refl
count-drop_old now u w (t ∷ ts) le = ground (arith, count-drop_old now u w ts le)

pub count-append_one :
    (p : ℕ → Bool) (ts : List ℕ) (now : ℕ)
    → count p (ts ++ now ∷ []) ≡ (if p now then 1 else 0) + count p ts
count-append_one p [] now = refl
count-append_one p (t ∷ ts) now = ground (arith, count-append_one p ts now)

All-inside :
    (now w m : ℕ) (ts : List ℕ)
    → now ≤ m + w
    → All (λ t. m ≤ t) ts
    → count (inside now (w + 1)) ts ≡ length ts
All-inside now w m [] le a = refl
All-inside now w m (t ∷ ts) le a = ground (arith, All-inside now w m ts le a.1)

-- After the old timestamps are dropped, those that are left are the ones in the window.
pub length_kept :
    (now w : ℕ) (ts : List ℕ)
    → IsAscending ts
    → length (drop_old now w ts) ≡ count (inside now (w + 1)) ts
unfolding drop_old
length_kept now w [] a = refl
length_kept now w (t ∷ ts) a = elim (Bool-cases (ltb w (now - t))) [
  | inl old ↦ rw old (ground (arith, length_kept now w ts a.1))
  | inr live ↦ rw live (ground (arith, All-inside now w t ts (ground arith) a.0))
]

pub drop_old-All : (P : ℕ → Type 0) (now w : ℕ) (ts : List ℕ) → All P ts → All P (drop_old now w ts)
unfolding drop_old
drop_old-All P now w [] a = tt
drop_old-All P now w (t ∷ ts) a = elim (Bool-cases (ltb w (now - t))) [
  | inl old ↦ rw old (drop_old-All P now w ts a.1)
  | inr live ↦ rw live a
]

pub drop_old-IsAscending :
    (now w : ℕ) (ts : List ℕ) → IsAscending ts → IsAscending (drop_old now w ts)
unfolding drop_old
drop_old-IsAscending now w [] a = tt
drop_old-IsAscending now w (t ∷ ts) a = elim (Bool-cases (ltb w (now - t))) [
  | inl old ↦ rw old (drop_old-IsAscending now w ts a.1)
  | inr live ↦ rw live a
]

pub All-le_mono : (t now : ℕ) (ts : List ℕ) → t ≤ now → All (λ u. u ≤ t) ts → All (λ u. u ≤ now) ts
All-le_mono t now [] le a = tt
All-le_mono t now (u ∷ ts) le a = (omega arith, All-le_mono t now ts le a.1)

pub All-append_one :
    (P : ℕ → Type 0) (ts : List ℕ) (now : ℕ) → All P ts → P now → All P (ts ++ now ∷ [])
All-append_one P [] now a h = (h, tt)
All-append_one P (t ∷ ts) now a h = (a.0, All-append_one P ts now a.1 h)

pub append_one-IsAscending :
    (ts : List ℕ) (now : ℕ) → IsAscending ts → All (λ u. u ≤ now) ts → IsAscending (ts ++ now ∷ [])
append_one-IsAscending [] now a b = (tt, tt)
append_one-IsAscending (t ∷ ts) now a b =
    (All-append_one (λ u. t ≤ u) ts now a.0 b.0, append_one-IsAscending ts now a.1 b.1)

-- To have dropped old timestamps before leaves no more of them later.
pub length-drop_old_again :
    (now later w : ℕ) (ts : List ℕ)
    → length (drop_old later w (drop_old now w ts)) ≤ length (drop_old later w ts)
unfolding drop_old
length-drop_old_again now later w [] = omega arith
length-drop_old_again now later w (t ∷ ts) =
    let rest = length-drop_old_again now later w ts in
    let fewer = length-drop_old later w ts in
    elim (Bool-cases (ltb w (now - t))) [
      | inl old ↦ rw old (elim (Bool-cases (ltb w (later - t))) [
        | inl gone ↦ rw gone rest
        | inr kept ↦ rw kept (omega arith)
      ])
      | inr live ↦ rw live (omega arith)
    ]

abbrev waited : Pass → ℕ
waited recorded = 0
waited (wait d) = d
waited no_oldest = 0

pub room_later :
    (now later d window limit : ℕ) (kept : List ℕ)
    → full now window kept ≡ wait d
    → now + d < later
    → length kept ≤ limit
    → ltb (length (drop_old later window kept)) limit ≡ true
unfolding drop_old
room_later now later d window limit [] e after le = cc
room_later now later d window limit (t ∷ ts) e after le =
    let delay : window + t - now ≡ d = ap waited e in
    ground (arith, length-drop_old later window ts)
