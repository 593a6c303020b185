-- ===== src/Atspi/World.antt =====
-- The accessibility bus as bridge/src/atspi.rs sees it: the answers of the D-Bus calls on an
-- accessible, which other processes give. The answers do not change during one walk.
use noctalia_appmenu.Prelude.{
  ℕ, zero, suc, ℤ, pos, negsuc, List, [], ◌∷◌, Bool, Option, none, some, Text,
}
use mathlib.Core.Option

-- What an `async` call returns to its caller: a value, an `Err`, or a panic that unwinds through
-- every caller.
pub data Outcome {ℓ} (A : Type ℓ) : Type ℓ where
  ok : A → Outcome A
  err : Outcome A
  panic : Outcome A

infixl 5 ◌>>=◌
abbrev pub ◌>>=◌ {ℓ κ} : {A : Type ℓ} {B : Type κ} → Outcome A → (A → Outcome B) → Outcome B
ok a >>= f = f a
err >>= f = err
panic >>= f = panic

-- A bus name and an object path.
pub record Ref : Type 0 where
  pub service : Text
  pub path : Text

-- The answers; `none` is an error reply.
pub record World : Type 0 where
  pub builds : Ref → Bool
  pub get_child_at_index : Ref → ℕ → Option Ref
  pub get_role : Ref → Option ℕ
  pub get_state : Ref → Option (List ℕ)
  pub read_name : Ref → Option Text
  pub read_child_count : Ref → Option ℤ

-- The rounds of `for i in 0..count`: none for a negative count.
abbrev pub rounds : ℤ → ℕ
rounds (pos n) = n
rounds (negsuc n) = 0

-- `for i in i..i + n { if let Ok(child) = proxy.get_child_at_index(i) … }`: the answered children
-- with their indices.
unfoldable pub child_refs : World → Ref → ℕ → ℕ → List (ℕ × Ref)
child_refs w r i zero = []
child_refs w r i (suc n) = elim (w.get_child_at_index r i) [
  | none ↦ child_refs w r (suc i) n
  | some c ↦ (i, c) ∷ child_refs w r (suc i) n
]

-- `read_child_count(…).unwrap_or(0)`
abbrev pub child_count : World → Ref → ℤ
child_count w r = Option.get_or (w.read_child_count r) (pos 0)
