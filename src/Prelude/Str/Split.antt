-- ===== src/Prelude/Str/Split.antt =====
-- Rust's ways to take a text apart at a character: `split`, `split_once`, `rfind` and `lines`.
pub mod Laws
use Prim.Native.Nat.{ℕ}
use mathlib.Core.List.{List, [], ◌∷◌}
use mathlib.Core.Option
use mathlib.Core.Option.{Option, none, some}
use noctalia_appmenu.Prelude.Tests.{◌==◌, if◌then◌else◌}
use noctalia_appmenu.Prelude.Str.{Text, strip_suffix, codes}

-- `s.split_once(c)`: at the first `c`
unfoldable pub split_once : ℕ → Text → Option (Text × Text)
split_once c [] = none
split_once c (d ∷ s) =
    if d == c then some ([], s) else Option.map (λ p. (d ∷ p.0, p.1)) (split_once c s)

-- `s.rfind(c)` with the slices `s[..idx]` and `s[idx + 1..]`: at the last `c`
unfoldable pub rsplit_once : ℕ → Text → Option (Text × Text)
rsplit_once c [] = none
rsplit_once c (d ∷ s) = elim (rsplit_once c s) [
  | some p ↦ some (d ∷ p.0, p.1)
  | none ↦ if d == c then some ([], s) else none
]

abbrev glue : ℕ → List Text → List Text
glue d [] = (d ∷ []) ∷ []
glue d (part ∷ parts) = (d ∷ part) ∷ parts

-- `s.split(c)`: never empty
unfoldable pub split : ℕ → Text → List Text
split c [] = [] ∷ []
split c (d ∷ s) = let rest = split c s in if d == c then [] ∷ rest else glue d rest

abbrev strip_return : Text → Text
strip_return line = Option.get_or (strip_suffix (codes "\r") line) line

-- the parts between line ends, into lines
lines_of : List Text → List Text
unfolding strip_suffix
lines_of [] = []
lines_of ([] ∷ []) = []
lines_of (part ∷ []) = part ∷ []
lines_of (part ∷ next ∷ parts) = strip_return part ∷ lines_of (next ∷ parts)

-- `s.lines()`: a last line end closes its line, and a carriage return before a line end is
-- dropped. A last line with no line end keeps its carriage return.
unfoldable pub lines : Text → List Text
unfolding split lines_of
lines s = lines_of (split b'\n' s)
