-- ===== src/LoadBalancer/Runtime.antt =====
-- What the load balancer takes from Python's runtime: floats, `urlparse`, and the order in which a
-- `set` is run through.
use smol_router.Prelude.{ℕ, String, ◌≡◌, Bool, true, not, Option, List, if◌then◌else◌, All}

pub record Runtime : Type 1 where
  pub Float : Type 0
  pub from_ℕ : ℕ → Float
  pub one_half : Float
  pub one_fifth : Float
  pub infinity : Float
  pub add : Float → Float → Float
  pub sub : Float → Float → Float
  pub mul : Float → Float → Float
  pub div : Float → Float → Float
  -- `a < b`
  pub lt : Float → Float → Bool
  -- `a == b`, or the same object
  pub same : Float → Float → Bool
  -- `urlparse(url).hostname` and `str(urlparse(url).port)`; a port 0 counts as none
  pub hostname : String → Option String
  pub port : String → Option String
  -- `set(xs)`, run through
  pub set_order : List String → List String
  -- A float is the same object as itself.
  pub same_refl : (x : Float) → same x x ≡ true
  -- A set holds nothing but the elements of the list that it is made of.
  pub set_order-All : (P : String → Type 0) (xs : List String) → All P xs → All P (set_order xs)

-- Python's `max(a, b)`: the first unless the second is greater.
abbrev pub max_float : (R : Runtime) → R.Float → R.Float → R.Float
max_float R a b = if R.lt a b then b else a

-- A key function's order, as `sorted` tests it: by `<` alone.
abbrev pub before : (R : Runtime) → R.Float → R.Float → Bool
before R a b = not (R.lt b a)
