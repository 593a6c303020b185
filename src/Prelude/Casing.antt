-- ===== src/Prelude/Casing.antt =====
-- The case mappings of Unicode, which the standard library reads from its tables:
-- `char::to_uppercase` and `str::to_lowercase`. They are parameters of what calls them; `ascii` is
-- a concrete choice.
use Prim.Native.Nat.{ℕ, ◌+◌, ◌-◌}
use mathlib.Core.Bool.{◌&&◌}
use mathlib.Core.List.{[], ◌∷◌, map}
use noctalia_appmenu.Prelude.Tests.{leb, if◌then◌else◌}
use noctalia_appmenu.Prelude.Str.{Text}

pub record Unicode : Type 0 where
  pub to_uppercase : ℕ → Text
  pub to_lowercase : Text → Text

abbrev pub ascii : Unicode
ascii = record {
  to_uppercase = λ c. (if leb b'a' c && leb c b'z' then c - 32 else c) ∷ [];
  to_lowercase = map (λ c. if leb b'A' c && leb c b'Z' then c + 32 else c);
}
