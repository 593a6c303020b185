-- ===== src/Proxy/Loop/Resting.antt =====
-- The verdict that lets an application rest, and what leaves it as it is: the statics of
-- `learned_skip` in bridge/src/atspi.rs.
use noctalia_appmenu.Prelude.{
  ◌+◌, ◌<◌, ◌≡◌, ◌⊎◌, inl, inr, true, false, Bool, some, arith, Text, text_eq, Instant, Duration,
}
use noctalia_appmenu.Prelude.Str.Laws.{text_eq_refl}
use noctalia_appmenu.Atspi.Skip.{
  Verdict, clear_expensive, Learned, resolved_once, ttl_for, classify_expensive, should_skip,
  record_negative, forget,
}
use noctalia_appmenu.Atspi.Skip.Laws.{should_skip-clear_expensive}
use noctalia_appmenu.Proxy.Loop.{Bridge, after_restart}

-- The application's verdict is a cheap one, which no restart of the a11y bus clears.
abbrev pub IsCheap : Text → Learned → Type 0
IsCheap app_id s = (v : Verdict) × (s.skip.value app_id ≡ some v) × (v.expensive ≡ false)

-- The application is skipped until the instant, its verdict can be read, and it is a cheap one,
-- unless the bus is said to stay.
abbrev pub RestsUntil : Bool → Instant → Text → Learned → Type 0
RestsUntil stays end app_id s =
    (s.skip.poisoned ≡ false)
    × ((now : Instant) → now < end → should_skip s now app_id ≡ true)
    × ((stays ≡ true) ⊎ IsCheap app_id s)

record_negative-IsCheap :
    (t : Instant) (a b : Text) (took : Duration) (s : Learned)
    → s.skip.poisoned ≡ false
    → text_eq b a ≡ false
    → IsCheap a s
    → IsCheap a (record_negative s t b took)
unfolding record_negative
record_negative-IsCheap t a b took s p other (v, e, cheap) = (v, ground (arith, p, other, e), cheap)

forget-IsCheap :
    (a b : Text) (s : Learned)
    → s.skip.poisoned ≡ false
    → text_eq b a ≡ false
    → IsCheap a s
    → IsCheap a (forget s b)
unfolding forget
forget-IsCheap a b s p other (v, e, cheap) = (v, ground (arith, p, other, e), cheap)

clear_expensive-IsCheap :
    (a : Text) (s : Learned) → s.skip.poisoned ≡ false → IsCheap a s → IsCheap a (clear_expensive s)
unfolding clear_expensive
clear_expensive-IsCheap a s p (v, e, cheap) = (v, ground (arith, p, e, cheap), cheap)

or_IsCheap :
    (stays : Bool) (a : Text) (s t : Learned)
    → (IsCheap a s → IsCheap a t)
    → (stays ≡ true) ⊎ IsCheap a s
    → (stays ≡ true) ⊎ IsCheap a t
or_IsCheap stays a s t f (inl h) = inl h
or_IsCheap stays a s t f (inr c) = inr (f c)

-- What is learned of another application does not matter.
pub record_negative-RestsUntil :
    (stays : Bool) (end t : Instant) (a b : Text) (took : Duration) (s : Learned)
    → text_eq b a ≡ false
    → RestsUntil stays end a s
    → RestsUntil stays end a (record_negative s t b took)
unfolding record_negative should_skip
record_negative-RestsUntil stays end t a b took s other (p, h, c) = (
  ground (arith, p),
  λ now soon. ground (arith, p, h now soon, other),
  or_IsCheap stays a s (record_negative s t b took) (record_negative-IsCheap t a b took s p other)
      c,
)

pub forget-RestsUntil :
    (stays : Bool) (end : Instant) (a b : Text) (s : Learned)
    → text_eq b a ≡ false
    → RestsUntil stays end a s
    → RestsUntil stays end a (forget s b)
unfolding forget should_skip
forget-RestsUntil stays end a b s other (p, h, c) = (
  ground (arith, p),
  λ now soon. ground (arith, p, h now soon, other),
  or_IsCheap stays a s (forget s b) (forget-IsCheap a b s p other) c,
)

clear_expensive-unpoisoned :
    (s : Learned) → s.skip.poisoned ≡ false → (clear_expensive s).skip.poisoned ≡ false
unfolding clear_expensive
clear_expensive-unpoisoned s p = ground (arith, p)

-- A restart of the bus clears expensive verdicts alone.
clear_expensive-RestsUntil :
    (stays : Bool) (end : Instant) (a : Text) (s : Learned)
    → stays ≡ false
    → RestsUntil stays end a s
    → RestsUntil stays end a (clear_expensive s)
clear_expensive-RestsUntil stays end a s goes (p, h, inl stay) = absurd (cc)
clear_expensive-RestsUntil stays end a s goes (p, h, inr cheap) = (
  clear_expensive-unpoisoned s p,
  λ now soon. (should_skip-clear_expensive s now a p).1 (h now soon, cheap),
  inr (clear_expensive-IsCheap a s p cheap),
)

pub after_restart-RestsUntil :
    (stays : Bool) (end : Instant) (a : Text) (restarted : Bool) (s : Bridge)
    → (stays ≡ false) ⊎ (restarted ≡ false)
    → RestsUntil stays end a s.learned
    → RestsUntil stays end a (after_restart restarted s).learned
unfolding after_restart
after_restart-RestsUntil stays end a false s k h = h
after_restart-RestsUntil stays end a true s (inl goes) h =
    clear_expensive-RestsUntil stays end a s.learned goes h
after_restart-RestsUntil stays end a true s (inr e) h = absurd (cc)

-- After a walk with no menubar the application rests for the time of its class.
pub record_negative-RestsUntil_self :
    (stays : Bool) (t : Instant) (a : Text) (took : Duration) (s : Learned)
    → s.skip.poisoned ≡ false
    → (stays ≡ true) ⊎ (classify_expensive took ≡ false)
    → RestsUntil stays
        (t + ttl_for (classify_expensive took) (resolved_once s a))
        a
        (record_negative s t a took)
unfolding record_negative should_skip
record_negative-RestsUntil_self stays t a took s p c = (
  ground (arith, p),
  λ now soon. ground (arith, p, text_eq_refl a),
  elim c [
    | inl h ↦ inl h
    | inr cheap ↦ inr (
      record { learned_at = t; expensive = classify_expensive took },
      ground (arith, p, text_eq_refl a),
      cheap,
    )
  ],
)
