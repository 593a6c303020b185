-- ===== src/Prelude/Str/Split/Laws.antt =====
-- Texts that are put together from parts come apart again.
use Prim.Native.Nat.{ℕ}
use mathlib.Core.Path.{◌≡◌, refl, ap, ◌∙◌}
use mathlib.Core.Bool.{false}
use mathlib.Core.Logic.{inl, inr}
use mathlib.Core.List.{List, [], ◌∷◌, ◌++◌, reverse}
use mathlib.Core.Option
use mathlib.Core.Option.{none, some}
use native.Mathlib.Omega.{arith}
use noctalia_appmenu.Prelude.Lists.{All}
use noctalia_appmenu.Prelude.Tests.{◌==◌, ==_refl, Bool-cases, Option-cases}
use noctalia_appmenu.Prelude.Str.{
  Text, contains_char, is_whitespace, strip_prefix, strip_suffix, codes,
}
use noctalia_appmenu.Prelude.Str.Bare.{StartsBare, IsBare}
use noctalia_appmenu.Prelude.Str.Split.{split_once, split, strip_return, lines_of, lines}

pub split_once-append :
    (c : ℕ) (s t : Text) → contains_char c s ≡ false → split_once c (s ++ c ∷ t) ≡ some (s, t)
unfolding split_once
split_once-append c [] t h = ground arith
split_once-append c (d ∷ s) t h = ground (arith, split_once-append c s t)

pub split_once_sound : (c : ℕ) (s a b : Text) → split_once c s ≡ some (a, b) → s ≡ a ++ c ∷ b
unfolding split_once
split_once_sound c [] a b e = absurd (ground arith)
split_once_sound c (d ∷ s) a b e = elim (Bool-cases (d == c)) [
  | inl h ↦ ground arith
  | inr h ↦ elim (Option-cases (split_once c s)) [
    | inl n ↦ absurd (ground arith)
    | inr ((x, y), k) ↦
        let rest : s ≡ x ++ c ∷ y = split_once_sound c s x y k in ground (arith, rest, k)
  ]
]

pub split-append :
    (c : ℕ) (s t : Text) → contains_char c s ≡ false → split c (s ++ c ∷ t) ≡ s ∷ split c t
unfolding split
split-append c [] t h = rw (==_refl c) refl
split-append c (d ∷ s) t h = ground (arith, split-append c s t)

pub contains_char-append :
    (c : ℕ) (s t : Text)
    → contains_char c s ≡ false
    → contains_char c t ≡ false
    → contains_char c (s ++ t) ≡ false
contains_char-append c [] t h k = k
contains_char-append c (d ∷ s) t h k = ground (arith, contains_char-append c s t)

-- Every text, with the character behind it.
unfoldable pub join_with : ℕ → List Text → Text
join_with c [] = []
join_with c (s ∷ ss) = s ++ c ∷ join_with c ss

pub split-join_with :
    (c : ℕ) (ss : List Text)
    → All (λ s. contains_char c s ≡ false) ss
    → split c (join_with c ss) ≡ ss ++ [] ∷ []
unfolding join_with
split-join_with c [] h = unfold split in refl
split-join_with c (s ∷ ss) (h, hs) =
    split-append c s (join_with c ss) h ∙ ap (◌∷◌ s) (split-join_with c ss hs)

-- A line that `lines` reads back: no line end in it, and no whitespace at its ends.
abbrev pub IsLine : Text → Type 0
IsLine s = (contains_char b'\n' s ≡ false) × IsBare s

no_return : (c : ℕ) (s : Text) → is_whitespace c ≡ false → strip_prefix (codes "\r") (c ∷ s) ≡ none
unfolding strip_prefix is_whitespace
no_return c s h = ground arith

strip_return-IsBare : (s : Text) → IsBare s → strip_return s ≡ s
unfolding strip_suffix
strip_return-IsBare s (_, k) = from (reverse s) k
  where
    from :
        (r : Text)
        → StartsBare r
        → Option.get_or (Option.map reverse (strip_prefix (codes "\r") r)) s ≡ s
    from [] h = unfold strip_prefix in refl
    from (c ∷ r) h = rw (no_return c r h) refl

lines_of-append : (ss : List Text) → All IsLine ss → lines_of (ss ++ [] ∷ []) ≡ ss
unfolding lines_of
lines_of-append [] h = refl
lines_of-append (s ∷ []) (h, _) = rw (strip_return-IsBare s h.1) refl
lines_of-append (s ∷ t ∷ ss) (h, hs) =
    rw (strip_return-IsBare s h.1) (ap (◌∷◌ s) (lines_of-append (t ∷ ss) hs))

newline_free : (ss : List Text) → All IsLine ss → All (λ s. contains_char b'\n' s ≡ false) ss
newline_free [] h = tt
newline_free (s ∷ ss) (h, hs) = (h.0, newline_free ss hs)

pub lines-join_with : (ss : List Text) → All IsLine ss → lines (join_with b'\n' ss) ≡ ss
unfolding lines
lines-join_with ss h =
    ap lines_of (split-join_with b'\n' ss (newline_free ss h)) ∙ lines_of-append ss h
