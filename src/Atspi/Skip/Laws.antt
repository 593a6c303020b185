-- ===== src/Atspi/Skip/Laws.antt =====
-- How long a verdict holds, and that none holds for good.
use noctalia_appmenu.Prelude.{
  ◌+◌, ◌-◌, ◌≤◌, ◌≡◌, ◌↔◌, inl, inr, true, false, List, [], ◌∷◌, some, arith, ltb, if◌then◌else◌,
  All, Option-cases, Text, Duration, Instant, from_secs, from_millis, text_eq,
}
use noctalia_appmenu.Prelude.Map.{text_key}
use noctalia_appmenu.Atspi.Skip.{
  Verdict, Learned, unlearned, resolved_once, should_skip, record_negative, forget, clear_expensive,
  expensive_recheck_ttl,
}
use noctalia_appmenu.Prelude.Str.Laws.{text_eq_iff, text_eq_refl}

-- What may happen to the learned state, in the order in which it happens.
pub data Event : Type 0 where
  walked_without : Instant → Text → Duration → Event
  walked_with : Text → Event
  bus_restarted : Event

unfoldable pub learn : Learned → Event → Learned
learn s (walked_without now app_id walk) = record_negative s now app_id walk
learn s (walked_with app_id) = forget s app_id
learn s bus_restarted = clear_expensive s

unfoldable pub learn_all : Learned → List Event → Learned
unfolding learn
learn_all s [] = s
learn_all s (e ∷ es) = learn_all (learn s e) es

abbrev pub IsBy : Instant → Event → Type 0
IsBy t (walked_without now app_id walk) = now ≤ t
IsBy t (walked_with app_id) = Unit
IsBy t bus_restarted = Unit

-- Every verdict was learned by `t`.
abbrev LearnedBy : Instant → Learned → Type 0
LearnedBy t s = (app_id : Text) (v : Verdict) → s.skip.value app_id ≡ some v → v.learned_at ≤ t

learn-LearnedBy :
    (t : Instant) (s : Learned) (e : Event) → IsBy t e → LearnedBy t s → LearnedBy t (learn s e)
unfolding learn record_negative forget clear_expensive
learn-LearnedBy t s (walked_without now app_id walk) h k j v e = ground (arith, k j v)
learn-LearnedBy t s (walked_with app_id) h k j v e = ground (arith, k j v)
learn-LearnedBy t s bus_restarted h k j v e = ground (arith, k j v)

learn_all-LearnedBy :
    (t : Instant) (s : Learned) (es : List Event)
    → All (IsBy t) es
    → LearnedBy t s
    → LearnedBy t (learn_all s es)
unfolding learn_all
learn_all-LearnedBy t s [] h k = k
learn_all-LearnedBy t s (e ∷ es) (h, hs) k =
    learn_all-LearnedBy t (learn s e) es hs (learn-LearnedBy t s e h k)

-- Whatever was learned by an instant, in whatever order, half an hour later no application is
-- skipped any more.
pub should_skip-learn_all :
    (t now : Instant) (es : List Event) (app_id : Text)
    → All (IsBy t) es
    → t + expensive_recheck_ttl ≤ now
    → should_skip (learn_all unlearned es) now app_id ≡ false
unfolding should_skip
should_skip-learn_all t now es app_id h late =
    elim (Option-cases ((learn_all unlearned es).skip.value app_id)) [
      | inl e ↦ ground arith
      | inr (v, e) ↦
          let by : v.learned_at ≤ t =
            learn_all-LearnedBy t unlearned es h (λ j w q. absurd (cc)) app_id v e in
          ground arith
    ]

-- After a walk with no menubar the application is skipped for exactly the time of its class: 300 s
-- if the walk was cheap, 30 s if it took 750 ms or more and the application has had a menubar
-- before, and half an hour otherwise. Other applications' verdicts stay as they are. (The lock is
-- not poisoned.)
pub should_skip-record_negative :
    (s : Learned) (t now : Instant) (app_id j : Text) (walk : Duration)
    → s.skip.poisoned ≡ false
    → should_skip (record_negative s t app_id walk) now j ≡ (
        if text_eq app_id j
        then ltb (now - t) (
            if ltb walk (from_millis 750)
            then from_secs 300
            else if resolved_once s app_id
            then from_secs 30
            else from_secs 1800)
        else should_skip s now j)
unfolding should_skip record_negative
should_skip-record_negative s t now app_id j walk h = ground (arith, text_eq_iff app_id j)

-- A walk that finds a menubar ends the skip at once, and an expensive walk without one that comes
-- later holds for 30 s only. (The locks are not poisoned.)
pub should_skip-forget :
    (s : Learned) (t now : Instant) (app_id : Text) (walk : Duration)
    → s.skip.poisoned ≡ false
    → s.resolved.poisoned ≡ false
    → from_millis 750 ≤ walk
    → (should_skip (forget s app_id) now app_id ≡ false)
      × (should_skip (record_negative (forget s app_id) t app_id walk) now app_id
          ≡ ltb (now - t) (from_secs 30))
unfolding should_skip record_negative forget
should_skip-forget s t now app_id walk h k long = ground (arith, text_eq_refl app_id)

-- A restart of the a11y bus drops the expensive verdicts and no other: an application is skipped
-- afterwards exactly if it was and its verdict is a cheap one. (The lock is not poisoned.)
pub should_skip-clear_expensive :
    (s : Learned) (now : Instant) (app_id : Text)
    → s.skip.poisoned ≡ false
    → (should_skip (clear_expensive s) now app_id ≡ true) ↔ (
        (should_skip s now app_id ≡ true)
        × ((v : Verdict) × (s.skip.value app_id ≡ some v) × (v.expensive ≡ false)))
unfolding should_skip clear_expensive
should_skip-clear_expensive s now app_id h = elim (Option-cases (s.skip.value app_id)) [
  | inl e ↦ ground arith
  | inr (v, e) ↦ (λ k. (ground arith, (v, e, ground arith)), λ k. kept v e k.0 k.1)
]
  where
    kept :
        (v : Verdict)
        → s.skip.value app_id ≡ some v
        → should_skip s now app_id ≡ true
        → (x : Verdict) × (s.skip.value app_id ≡ some x) × (x.expensive ≡ false)
        → should_skip (clear_expensive s) now app_id ≡ true
    kept v e k (x, f, c) = ground arith
