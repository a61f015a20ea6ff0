-- ===== src/Access/Patterns.antt =====
-- Patterns of access rules: `/regex/`, or a wildcard for `fnmatch`. Python's `re` and `fnmatch` are
-- taken as they are, by what the program asks of them.
use Prim.Native.Char.{code}
use Prim.Native.String.{String, [], ◌∷◌}
use smol_router.Prelude.{Bool, false, ◌&&◌, Option, none, some, ◌==◌, if◌then◌else◌}

pub record PatternEngine : Type 0 where
  -- `re.compile(p)` succeeds
  pub compiles : String → Bool
  -- `re.compile(p).match(s)` finds a match
  pub regex_match : String → String → Bool
  -- `fnmatch.fnmatch(s, p)`
  pub fnmatch : String → String → Bool

abbrev pub starts_with_slash : String → Bool
starts_with_slash [] = false
starts_with_slash (c ∷ s) = code c == b'/'

abbrev pub ends_with_slash : String → Bool
ends_with_slash [] = false
ends_with_slash (c ∷ []) = code c == b'/'
ends_with_slash (c ∷ d ∷ s) = ends_with_slash (d ∷ s)

abbrev pub all_but_last : String → String
all_but_last [] = []
all_but_last (c ∷ []) = []
all_but_last (c ∷ d ∷ s) = c ∷ all_but_last (d ∷ s)

-- `p[1:-1]`
abbrev pub inner : String → String
inner [] = []
inner (c ∷ s) = all_but_last s

-- `p.startswith("/") and p.endswith("/")`
unfoldable pub is_regex : String → Bool
is_regex p = starts_with_slash p && ends_with_slash p

-- A pattern beside its compiled form: the text that was compiled, or `None`.
pub record Compiled : Type 0 where
  pub pattern : String
  pub regex : Option String

unfoldable pub compile : String → Compiled
unfolding is_regex
compile p = record { pattern = p; regex = if is_regex p then some (inner p) else none }
