-- ===== src/Atspi/Skip.antt =====
-- `mod learned_skip` of bridge/src/atspi.rs: which applications are known to have no menubar.
pub mod Laws
use noctalia_appmenu.Prelude.{
  ℕ, Bool, true, false, not, Option, none, some, ltb, leb, if◌then◌else◌, Text, Duration, Instant,
  from_millis, from_secs, elapsed,
}
use noctalia_appmenu.Prelude.Map.{
  Map, empty_map, insert, remove, retain_values, Mutex, locked, mutex, text_key,
}

-- `EXPENSIVE_WALK`, `RECHECK_TTL`, `EXPENSIVE_RECHECK_TTL`, `EXPENSIVE_RESOLVED_TTL`
abbrev pub expensive_walk : Duration
expensive_walk = from_millis 750

abbrev pub recheck_ttl : Duration
recheck_ttl = from_secs 300

abbrev pub expensive_recheck_ttl : Duration
expensive_recheck_ttl = from_secs 1800

abbrev pub expensive_resolved_ttl : Duration
expensive_resolved_ttl = from_secs 30

pub record Verdict : Type 0 where
  pub learned_at : Instant
  pub expensive : Bool

-- The two statics, `SKIP` and `RESOLVED_ONCE`.
pub record Learned : Type 0 where
  pub skip : Mutex (Map Text Verdict)
  pub resolved : Mutex (Text → Bool)

abbrev pub unlearned : Learned
unlearned = record { skip = mutex empty_map; resolved = mutex (λ _. false) }

unfoldable pub resolved_once : Learned → Text → Bool
resolved_once s app_id = if s.resolved.poisoned then false else s.resolved.value app_id

unfoldable pub ttl_for : Bool → Bool → Duration
ttl_for expensive resolved_once =
    if not expensive
    then recheck_ttl
    else if resolved_once
    then expensive_resolved_ttl
    else expensive_recheck_ttl

unfoldable pub skip_decision : Bool → Bool → Duration → Bool
unfolding ttl_for
skip_decision expensive resolved_once age = ltb age (ttl_for expensive resolved_once)

unfoldable pub classify_expensive : Duration → Bool
classify_expensive walk = leb expensive_walk walk

unfoldable pub should_skip : Learned → Instant → Text → Bool
unfolding resolved_once skip_decision
should_skip s now app_id = if s.skip.poisoned then false else elim (s.skip.value app_id) [
  | none ↦ false
  | some v ↦ skip_decision v.expensive (resolved_once s app_id) (elapsed now v.learned_at)
]

unfoldable pub record_negative : Learned → Instant → Text → Duration → Learned
unfolding classify_expensive
record_negative s now app_id walk = record s {
  skip =
      locked (insert app_id (record { learned_at = now; expensive = classify_expensive walk }))
        s.skip;
}

abbrev add : Text → (Text → Bool) → Text → Bool
add app_id set j = if text_key.beq app_id j then true else set j

unfoldable pub forget : Learned → Text → Learned
forget s app_id = record s {
  skip = locked (remove app_id) s.skip;
  resolved = locked (add app_id) s.resolved;
}

unfoldable pub clear_expensive : Learned → Learned
clear_expensive s = record s { skip = locked (retain_values (λ v. not v.expensive)) s.skip }
