-- ===== src/Prelude/Str/Bare.antt =====
-- Texts with no whitespace at either end: trimming does not change them.
use Prim.Native.Nat.{ℕ}
use mathlib.Core.Path.{◌≡◌, refl, ap, sym, ◌∙◌, subst}
use mathlib.Core.Logic.{inl, inr}
use noctalia_appmenu.Prelude.Tests.{Bool-cases}
use mathlib.Core.Bool.{false}
use mathlib.Core.List.{
  [], ◌∷◌, ◌++◌, reverse, reverse-append, reverse-cons, reverse-reverse, append_assoc,
}
use mathlib.Core.Option.{some}
use noctalia_appmenu.Prelude.Str.{Text, is_whitespace, trim_start, trim, strip_suffix}
use noctalia_appmenu.Prelude.Str.Laws.{strip_prefix-append}

-- The first character, if there is one, is not whitespace.
abbrev pub StartsBare : Text → Type 0
StartsBare [] = Unit
StartsBare (c ∷ s) = is_whitespace c ≡ false

abbrev pub IsBare : Text → Type 0
IsBare s = StartsBare s × StartsBare (reverse s)

trim_start-StartsBare : (s : Text) → StartsBare s → trim_start s ≡ s
unfolding trim_start
trim_start-StartsBare [] h = refl
trim_start-StartsBare (c ∷ s) h = rw h refl

pub trim-IsBare : (s : Text) → IsBare s → trim s ≡ s
unfolding trim
trim-IsBare s (h, k) =
    rw (trim_start-StartsBare s h, trim_start-StartsBare (reverse s) k) (reverse-reverse s)

pub StartsBare-append : (s t : Text) → StartsBare s → StartsBare t → StartsBare (s ++ t)
StartsBare-append [] t h k = k
StartsBare-append (c ∷ s) t h k = h

-- A bare text in front of a character and a bare text.
pub IsBare-append :
    (s t : Text) (c : ℕ) → is_whitespace c ≡ false → StartsBare s → IsBare t → IsBare (s ++ c ∷ t)
IsBare-append s t c w h (_, k) = (
  StartsBare-append s (c ∷ t) h w,
  rw (reverse-append s (c ∷ t), reverse-cons c t, append_assoc (reverse t) (c ∷ []) (reverse s))
      (StartsBare-append (reverse t) (c ∷ reverse s) k w),
)

pub strip_suffix-append : (s t : Text) → strip_suffix t (s ++ t) ≡ some s
unfolding strip_suffix
strip_suffix-append s t =
    rw (reverse-append s t, strip_prefix-append (reverse t) (reverse s))
      (ap some (reverse-reverse s))

trim_start-StartsBare_lem : (s : Text) → StartsBare (trim_start s)
unfolding trim_start
trim_start-StartsBare_lem [] = tt
trim_start-StartsBare_lem (c ∷ s) = elim (Bool-cases (is_whitespace c)) [
  | inl w ↦ rw (w, trim_start) (trim_start-StartsBare_lem s)
  | inr w ↦ rw (w, trim_start) w
]

-- What `trim_start` takes off.
trim_start_suffix : (s : Text) → (p : Text) × (s ≡ p ++ trim_start s)
unfolding trim_start
trim_start_suffix [] = ([], refl)
trim_start_suffix (c ∷ s) = elim (Bool-cases (is_whitespace c)) [
  | inl w ↦ let (p, e) = trim_start_suffix s in (c ∷ p, rw (w, trim_start) (ap (◌∷◌ c) e))
  | inr w ↦ ([], rw (w, trim_start) refl)
]

StartsBare-prefix : (s t : Text) → StartsBare (s ++ t) → StartsBare s
StartsBare-prefix [] t h = tt
StartsBare-prefix (c ∷ s) t h = h

trim-StartsBare : (s : Text) → StartsBare (trim s)
unfolding trim
trim-StartsBare s =
    let t = trim_start s in
    let (p, e) = trim_start_suffix (reverse t) in
    let whole : t ≡ reverse (trim_start (reverse t)) ++ reverse p =
      sym (reverse-reverse t) ∙ ap reverse e ∙ reverse-append p (trim_start (reverse t)) in
    StartsBare-prefix (reverse (trim_start (reverse t))) (reverse p)
      (subst StartsBare whole (trim_start-StartsBare_lem s))

trim-EndsBare : (s : Text) → StartsBare (reverse (trim s))
unfolding trim
trim-EndsBare s =
    subst StartsBare (sym (reverse-reverse (trim_start (reverse (trim_start s)))))
      (trim_start-StartsBare_lem (reverse (trim_start s)))

pub trim-trim : (s : Text) → trim (trim s) ≡ trim s
trim-trim s = trim-IsBare (trim s) (trim-StartsBare s, trim-EndsBare s)
