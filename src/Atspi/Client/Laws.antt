-- ===== src/Atspi/Client/Laws.antt =====
-- After the a11y bus was seen to restart, no walk uses a connection from before.
use noctalia_appmenu.Prelude.{
  ℕ, ◌≡◌, refl, ◌≢◌, ◌⊎◌, inl, inr, Bool, true, false, List, [], ◌∷◌, Option, none, some, arith,
  All,
}
use noctalia_appmenu.Atspi.A11y.{A11yBus, enable_a11y, connect_a11y, is_a11y_enabled}
use noctalia_appmenu.Atspi.Client.{
  Shared, connection, invalidate, after_probe, poll, Use, connects, polls, handed_out,
}

-- The connection is one that was opened in the course of these.
abbrev pub IsOpenedIn : List Use → ℕ → Type 0
IsOpenedIn [] c = ⊥
IsOpenedIn (connects bus ∷ rest) c = (connect_a11y bus ≡ some c) ⊎ IsOpenedIn rest c
IsOpenedIn (polls at_probe at_set ∷ rest) c = IsOpenedIn rest c

-- It is the cached one, or was opened in the course of these.
abbrev IsKnown : Shared → List Use → ℕ → Type 0
IsKnown s uses c = (s.inner ≡ some c) ⊎ IsOpenedIn uses c

All-map : {P Q : ℕ → Type 0} (cs : List ℕ) → ((c : ℕ) → P c → Q c) → All P cs → All Q cs
All-map [] f h = tt
All-map (c ∷ cs) f (h, hs) = (f c h, All-map cs f hs)

after_probe-inner :
    (s : Shared) (reply : Option Bool) (sets : Bool) (c : ℕ)
    → (after_probe s reply sets).inner ≡ some c
    → (s.inner ≡ some c) × (reply ≡ some true)
unfolding after_probe invalidate
after_probe-inner s (some true) sets c e = (e, refl)
after_probe-inner s (some false) sets c e = absurd (cc)
after_probe-inner s none sets c e = absurd (cc)

connection-inner :
    (s : Shared) (bus : A11yBus) (c : ℕ)
    → (connection s bus).0.inner ≡ some c
    → (s.inner ≡ some c) ⊎ (connect_a11y bus ≡ some c)
unfolding connection
connection-inner s bus c e = ground arith

connection-got :
    (s : Shared) (bus : A11yBus) (c : ℕ)
    → (connection s bus).1 ≡ some c
    → (s.inner ≡ some c) ⊎ (connect_a11y bus ≡ some c)
unfolding connection
connection-got s bus c e = ground arith

All-got :
    {P : ℕ → Type 0} (got : Option ℕ) (later : List ℕ)
    → ((c : ℕ) → got ≡ some c → P c)
    → All P later
    → All P (elim got [ none ↦ later | some c ↦ c ∷ later ])
All-got none later f h = h
All-got (some c) later f h = (f c refl, h)

handed_out-IsKnown : (s : Shared) (uses : List Use) → All (IsKnown s uses) (handed_out s uses)
unfolding handed_out poll
handed_out-IsKnown s [] = tt
handed_out-IsKnown s (polls at_probe at_set ∷ rest) =
    All-map (handed_out (poll s at_probe at_set) rest)
      (λ c h. elim h [
        | inl e ↦ inl (after_probe-inner s (is_a11y_enabled at_probe) (enable_a11y at_set) c e).0
        | inr o ↦ inr o
      ])
      (handed_out-IsKnown (poll s at_probe at_set) rest)
handed_out-IsKnown s (connects bus ∷ rest) =
    All-got (connection s bus).1 (handed_out (connection s bus).0 rest)
      (λ c e. pass (connection-got s bus c e))
      (All-map (handed_out (connection s bus).0 rest)
        (λ c h. elim h [ inl e ↦ pass (connection-inner s bus c e) | inr o ↦ inr (inr o) ])
        (handed_out-IsKnown (connection s bus).0 rest))
  where
    pass :
        {c : ℕ}
        → (s.inner ≡ some c) ⊎ (connect_a11y bus ≡ some c)
        → IsKnown s (connects bus ∷ rest) c
    pass (inl e) = inl e
    pass (inr e) = inr (inl e)

-- After a poll that failed or found the a11y bus disabled, whatever follows, `connection` gives
-- only connections that were opened after that poll.
pub handed_out-IsOpenedIn :
    (s : Shared) (at_probe at_set : A11yBus) (uses : List Use)
    → is_a11y_enabled at_probe ≢ some true
    → All (IsOpenedIn uses) (handed_out (poll s at_probe at_set) uses)
unfolding poll
handed_out-IsOpenedIn s at_probe at_set uses n =
    All-map (handed_out (poll s at_probe at_set) uses)
      (λ c h. elim h [
        | inl e ↦
            absurd (n ((after_probe-inner s (is_a11y_enabled at_probe) (enable_a11y at_set) c e).1))
        | inr o ↦ o
      ])
      (handed_out-IsKnown (poll s at_probe at_set) uses)
