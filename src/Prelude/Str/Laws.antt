-- ===== src/Prelude/Str/Laws.antt =====
-- Laws of texts: equality is decided, and so is a prefix.
use Prim.Native.Nat.{◌+◌}
use mathlib.Core.Path.{◌≡◌, refl, ap, ◌∙◌, subst}
use mathlib.Core.Logic.{◌↔◌, inl, inr}
use mathlib.Core.Bool.{true}
use mathlib.Core.List.{[], ◌∷◌, ◌++◌, append-nil}
use mathlib.Core.Option.{some}
use native.Mathlib.Omega.{arith}
use noctalia_appmenu.Prelude.Tests.{==_refl, Option-cases}
use noctalia_appmenu.Prelude.Str.{Text, text_eq, strip_prefix, starts_with, contains, byte_len}

pub text_eq_sound : (s t : Text) → text_eq s t ≡ true → s ≡ t
unfolding text_eq
text_eq_sound [] [] h = refl
text_eq_sound (a ∷ s) (b ∷ t) h = ground (arith, text_eq_sound s t)
text_eq_sound [] (b ∷ t) h = ground arith
text_eq_sound (a ∷ s) [] h = ground arith

pub text_eq_refl : (s : Text) → text_eq s s ≡ true
unfolding text_eq
text_eq_refl [] = refl
text_eq_refl (a ∷ s) = rw (==_refl a) (text_eq_refl s)

pub text_eq_iff : (s t : Text) → (text_eq s t ≡ true) ↔ (s ≡ t)
text_eq_iff s t = (text_eq_sound s t, λ e. rw e (text_eq_refl t))

pub strip_prefix-eq-append : (p s r : Text) → strip_prefix p s ≡ some r → s ≡ p ++ r
unfolding strip_prefix
strip_prefix-eq-append [] s r h = ground arith
strip_prefix-eq-append (a ∷ p) [] r h = ground arith
strip_prefix-eq-append (a ∷ p) (c ∷ s) r h = ground (arith, strip_prefix-eq-append p s r)

pub strip_prefix-append : (p r : Text) → strip_prefix p (p ++ r) ≡ some r
unfolding strip_prefix
strip_prefix-append [] r = refl
strip_prefix-append (a ∷ p) r = rw (==_refl a) (strip_prefix-append p r)

-- A text contains another exactly when it is that text between two others.
pub contains_sound :
    (s t : Text) → contains s t ≡ true → (a : Text) × (b : Text) × (s ≡ a ++ (t ++ b))
unfolding contains starts_with
contains_sound [] t h = elim (Option-cases (strip_prefix t [])) [
  | inl e ↦ absurd (ground arith)
  | inr (r, e) ↦ ([], r, strip_prefix-eq-append t [] r e)
]
contains_sound (c ∷ s) t h = elim (Option-cases (strip_prefix t (c ∷ s))) [
  | inl e ↦ let (a, b, q) = contains_sound s t (ground arith) in (c ∷ a, b, ap (◌∷◌ c) q)
  | inr (r, e) ↦ ([], r, strip_prefix-eq-append t (c ∷ s) r e)
]

pub contains_refl : (s : Text) → contains s s ≡ true
unfolding contains starts_with strip_prefix
contains_refl [] = refl
contains_refl (c ∷ s) =
    ground
      (arith, subst (λ x. strip_prefix s x ≡ some []) (append-nil s) (strip_prefix-append s []))

pub byte_len-append : (s t : Text) → byte_len (s ++ t) ≡ byte_len s + byte_len t
unfolding byte_len
byte_len-append [] t = omega arith
byte_len-append (c ∷ s) t = omega (arith, byte_len-append s t)

byte_len-eq-zero : (s : Text) → byte_len s ≡ 0 → s ≡ []
unfolding byte_len
byte_len-eq-zero [] h = refl
byte_len-eq-zero (c ∷ s) h = absurd (ground arith)

-- A text contains another of the same length only if they are equal.
pub contains-eq_of_byte_len : (s t : Text) → contains s t ≡ true → byte_len s ≡ byte_len t → s ≡ t
contains-eq_of_byte_len s t h e =
    let (a, b, q) = contains_sound s t h in
    let len : byte_len a + (byte_len t + byte_len b) ≡ byte_len t =
      omega (arith, byte_len-append a (t ++ b), byte_len-append t b, ap byte_len q, e) in
    let ea : a ≡ [] = byte_len-eq-zero a (omega arith) in
    let eb : b ≡ [] = byte_len-eq-zero b (omega arith) in q ∙ (rw (ea, eb) (append-nil t))
