-- ===== src/RateLimit/Window.antt =====
-- Events of a sorted set, by their scores, and the part of them that a rolling window sees.
-- A cutoff `now - window` may be negative; `after_cutoff` is Redis' exclusive bound "(cutoff".
use smol_router.Prelude.{
  ℕ, ◌+◌, ◌-◌, ◌≤◌, ◌≡◌, refl, Bool, true, List, [], ◌∷◌, arith, ltb, leb, if◌then◌else◌, filter,
  count, All,
}

pub data Cutoff : Type 0 where
  pos : ℕ → Cutoff
  negative : Cutoff

-- `now_ms - window_ms`
unfoldable pub cutoff : ℕ → ℕ → Cutoff
cutoff now window = if leb window now then pos (now - window) else negative

unfoldable pub after_cutoff : Cutoff → ℕ → Bool
after_cutoff (pos c) score = ltb c score
after_cutoff negative score = true

-- The events that the window ending at `now` holds.
abbrev pub inside : ℕ → ℕ → ℕ → Bool
inside now window score = ltb now (score + window)

pub after_cutoff-inside :
    (now window score : ℕ) → after_cutoff (cutoff now window) score ≡ inside now window score
unfolding cutoff after_cutoff
after_cutoff-inside now window score = ground arith

-- Ascending scores, as a sorted set lists them.
abbrev pub IsAscending : List ℕ → Type 0
IsAscending [] = Unit
IsAscending (s ∷ l) = All (λ t. s ≤ t) l × IsAscending l

-- Where `ZADD` puts a new score.
unfoldable pub insert_score : ℕ → List ℕ → List ℕ
insert_score s [] = s ∷ []
insert_score s (t ∷ l) = if leb t s then t ∷ insert_score s l else s ∷ t ∷ l

pub count-insert_score :
    (p : ℕ → Bool) (s : ℕ) (l : List ℕ)
    → count p (insert_score s l) ≡ (if p s then 1 else 0) + count p l
unfolding insert_score
count-insert_score p s [] = refl
count-insert_score p s (t ∷ l) = ground (arith, count-insert_score p s l)

-- A window loses events as time passes, and never gains one.
pub count-inside_mono :
    (window t u : ℕ) (l : List ℕ) → t ≤ u → count (inside u window) l ≤ count (inside t window) l
count-inside_mono window t u [] h = omega arith
count-inside_mono window t u (s ∷ l) h = ground (arith, count-inside_mono window t u l h)

-- What `ZREMRANGEBYSCORE` drops is outside of every shorter window, now and later.
pub count-inside-filter :
    (window long now t : ℕ) (l : List ℕ)
    → window ≤ long
    → now ≤ t
    → count (inside t window) (filter (inside now long) l) ≡ count (inside t window) l
count-inside-filter window long now t [] h k = refl
count-inside-filter window long now t (s ∷ l) h k =
    ground (arith, count-inside-filter window long now t l h k)
