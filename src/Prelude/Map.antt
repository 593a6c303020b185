-- ===== src/Prelude/Map.antt =====
-- Rust's `HashMap` as the function that it is looked up by, over keys with a Boolean equality, and
-- `Mutex`, which a panic of its holder poisons.
use Prim.Native.Nat.{ℕ}
use mathlib.Core.Path.{◌≡◌}
use mathlib.Core.Logic.{◌↔◌}
use mathlib.Core.Bool.{Bool, true, false, ◌&&◌}
use mathlib.Core.Option.{Option, none, some}
use native.Mathlib.Omega.{arith}
use noctalia_appmenu.Prelude.Tests.{◌==◌, if◌then◌else◌}
use noctalia_appmenu.Prelude.Str.{Text, text_eq}
use noctalia_appmenu.Prelude.Str.Laws.{text_eq_iff}

pub record Eq (K : Type 0) : Type 0 where
  pub beq : K → K → Bool
  pub beq_iff : (a b : K) → (beq a b ≡ true) ↔ (a ≡ b)

instance abbrev pub text_key : Eq Text
text_key = record { beq = text_eq; beq_iff = text_eq_iff }

-- `(String, u32, u64)` as a key
abbrev pub WindowKey : Type 0
WindowKey = Text × ℕ × ℕ

abbrev pub window_key_eq : WindowKey → WindowKey → Bool
window_key_eq a b = text_eq a.0 b.0 && (a.1 == b.1 && a.2 == b.2)

pub window_key_eq_iff : (a b : WindowKey) → (window_key_eq a b ≡ true) ↔ (a ≡ b)
window_key_eq_iff a b = ground (arith, text_eq_iff a.0 b.0)

instance abbrev pub window_key : Eq WindowKey
window_key = record { beq = window_key_eq; beq_iff = window_key_eq_iff }

abbrev pub Map : Type 0 → Type 0 → Type 0
Map K V = K → Option V

abbrev pub empty_map : {K V : Type 0} → Map K V
empty_map k = none

module _ {K V : Type 0} ⦃e : Eq K⦄ where
  abbrev pub insert : K → V → Map K V → Map K V
  insert k v m j = if e.beq k j then some v else m j

  abbrev pub remove : K → Map K V → Map K V
  remove k m j = if e.beq k j then none else m j

-- `map.retain(|_, v| p(v))`
abbrev pub retain_values : {K V : Type 0} → (V → Bool) → Map K V → Map K V
retain_values p m j = elim (m j) [ none ↦ none | some v ↦ if p v then some v else none ]

pub record Mutex (A : Type 0) : Type 0 where
  pub poisoned : Bool
  pub value : A

-- `if let Ok(mut x) = m.lock() { … }`
abbrev pub locked : {A : Type 0} → (A → A) → Mutex A → Mutex A
locked f m = if m.poisoned then m else record m { value = f m.value }

-- A new mutex.
abbrev pub mutex : {A : Type 0} → A → Mutex A
mutex a = record { poisoned = false; value = a }
