-- ===== src/Daemon/Progress.antt =====
-- Left to themselves, the tasks catch up: their own steps come to an end, and only where all is
-- done.
use noctalia_appmenu.Prelude.{
  ℕ, zero, suc, ◌+◌, ◌≤◌, ◌<◌, ◌≡◌, refl, ◌≢◌, ◌⊎◌, inl, inr, Bool, true, false, Bool-cases, arith,
  Text,
}
use noctalia_appmenu.Niri.Detect.{NiriIpc}
use noctalia_appmenu.Active.Debounce.{
  Phase, awaiting, sleeping, returned, Debounce, Step as DebounceStep, send, drop_sender, changed,
  changed_err, sleep_over, Reach as DebounceReach, start as debounce_start, next as debounce_next,
}
use noctalia_appmenu.Config.{Config}
use noctalia_appmenu.Desktop.Resolve.{System}
use noctalia_appmenu.Proxy.Write.{Payload, Disk}
use noctalia_appmenu.Proxy.Loop.{Bridge, Wake, focus_changed, refresh_kick, Round}
use noctalia_appmenu.Daemon.{
  Daemon, Step, reads, reconnects, wakes, publishes, refreshes, rounds, Wakes, still_waits, Reach,
}
use noctalia_appmenu.Daemon.Settled.{Inv, Step-Inv, Reach-Inv}

-- The debounce task returns only after its sender is gone.
open_or_closed : {s : Debounce} → DebounceReach s → (s.phase ≢ returned) ⊎ (s.is_closed ≡ true)
open_or_closed debounce_start = inl (λ e. absurd (cc))
open_or_closed (debounce_next r st) = step st (open_or_closed r)
  where
    step :
        {s t : Debounce}
        → DebounceStep s t
        → (s.phase ≢ returned) ⊎ (s.is_closed ≡ true)
        → (t.phase ≢ returned) ⊎ (t.is_closed ≡ true)
    step (send v o) h = h
    step drop_sender h = inr refl
    step (changed p u) h = inl (λ e. absurd (cc))
    step (changed_err p u c) h = inr c
    step (sleep_over p) h = inl (λ e. absurd (cc))

Phase-cases : (p : Phase) → (p ≡ awaiting) ⊎ (p ≡ sleeping) ⊎ (p ≡ returned)
Phase-cases awaiting = inl refl
Phase-cases sleeping = inr (inl refl)
Phase-cases returned = inr (inr refl)

abbrev pub weigh : ℕ → Bool → ℕ
weigh n true = n
weigh n false = 0

abbrev pub in_sleep : Phase → ℕ
in_sleep sleeping = 2
in_sleep _ = 0

module _ (cfg : Config) (sys : System) (to_string : Payload → Text) (ipc : NiriIpc) where
  -- What the tasks have still to do.
  abbrev pub work : Daemon ipc → ℕ
  work d =
      weigh 3 d.debounce.unseen
      + in_sleep d.debounce.phase
      + weigh 1 d.active_unseen
      + weigh 1 d.refresh

  -- A step of a task on what it already has, and not a line of niri, a new session or a click.
  abbrev pub IsOwn : {d e : Daemon ipc} → Step cfg sys to_string ipc d e → Type 0
  IsOwn (reads buf) = ⊥
  IsOwn reconnects = ⊥
  IsOwn (wakes p u) = Unit
  IsOwn (publishes p) = Unit
  IsOwn refreshes = ⊥
  IsOwn (rounds r w same a b c) = Unit

  -- A run of such steps, and how many they are.
  pub data OwnRun : ℕ → Daemon ipc → Daemon ipc → Type 0 where
    stop : {d : Daemon ipc} → OwnRun 0 d d
    go :
        {n : ℕ} {d e f : Daemon ipc} (st : Step cfg sys to_string ipc d e)
        → IsOwn st
        → OwnRun n e f
        → OwnRun (suc n) d f

  weigh-le : (n : ℕ) (b : Bool) → weigh n b ≤ n
  weigh-le n true = omega arith
  weigh-le n false = omega arith

  in_sleep-le : (p : Phase) → in_sleep p ≤ 2
  in_sleep-le awaiting = omega arith
  in_sleep-le sleeping = omega arith
  in_sleep-le returned = omega arith

  pub work-le : (d : Daemon ipc) → work d ≤ 7
  work-le d = omega (
    arith,
    weigh-le 3 d.debounce.unseen,
    in_sleep-le d.debounce.phase,
    weigh-le 1 d.active_unseen,
    weigh-le 1 d.refresh,
  )

  served :
      (d : Daemon ipc) (k : Wake)
      → Wakes cfg sys to_string ipc d k
      → weigh 1 (still_waits cfg sys to_string ipc k d.refresh)
        < weigh 1 d.active_unseen + weigh 1 d.refresh
  served d focus_changed w = rw w (omega arith)
  served d refresh_kick w = rw w (omega arith)

  work-IsOwn : {d e : Daemon ipc} (st : Step cfg sys to_string ipc d e) → IsOwn st → work e < work d
  work-IsOwn (reads buf) h = absurd h
  work-IsOwn reconnects h = absurd h
  work-IsOwn {d} (wakes p u) h = ground arith
  work-IsOwn {d} (publishes p) h = ground arith
  work-IsOwn refreshes h = absurd h
  work-IsOwn {d} (rounds r w same a b c) h = omega (arith, served d r.wake w)

  OwnRun-le : {n : ℕ} {d e : Daemon ipc} → OwnRun n d e → n + work e ≤ work d
  OwnRun-le stop = omega arith
  OwnRun-le (go st own run) = omega (arith, OwnRun-le run, work-IsOwn st own)

  -- The proxy task can go on with any input.
  abbrev serve : Round → Daemon ipc → Round
  serve t d = record t { snapshot = d.active }

  go_on :
      (t : Round)
      → t.eager_disk.writes ≡ true
      → t.final_disk.writes ≡ true
      → t.signals_sent ≡ true
      → (d : Daemon ipc) → Inv cfg sys to_string ipc d
      → (work d ≡ 0) ⊎ ((e : Daemon ipc) × (st : Step cfg sys to_string ipc d e) × IsOwn st)
  go_on t eager_ok final_ok sent d i = elim (Phase-cases d.debounce.phase) [
    | inl waiting ↦ elim (Bool-cases d.debounce.unseen) [
      | inl u ↦ inr (_, wakes waiting u, tt)
      | inr seen ↦ elim (Bool-cases d.active_unseen) [
        | inl u ↦ inr (
          _,
          rounds (record (serve t d) { wake = focus_changed }) u refl eager_ok final_ok sent,
          tt,
        )
        | inr caught_up ↦ elim (Bool-cases d.refresh) [
          | inl k ↦ inr (
            _,
            rounds (record (serve t d) { wake = refresh_kick }) k refl eager_ok final_ok sent,
            tt,
          )
          | inr quiet ↦ inl (ground arith)
        ]
      ]
    ]
    | inr (inl asleep) ↦ inr (_, publishes asleep, tt)
    | inr (inr gone) ↦ elim (open_or_closed i.moves) [
      | inl h ↦ absurd (h gone)
      | inr closed ↦ absurd (ground (arith, i.is_open))
    ]
  ]

  catch_up :
      (t : Round)
      → t.eager_disk.writes ≡ true
      → t.final_disk.writes ≡ true
      → t.signals_sent ≡ true
      → (fuel : ℕ) (d : Daemon ipc) → Inv cfg sys to_string ipc d
      → work d ≤ fuel
      → (n : ℕ) × (e : Daemon ipc) × OwnRun n d e × (work e ≡ 0)
  catch_up t eager_ok final_ok sent zero d i h = (0, d, stop, omega (arith, h))
  catch_up t eager_ok final_ok sent (suc fuel) d i h = elim (go_on t eager_ok final_ok sent d i) [
    | inl idle ↦ (0, d, stop, idle)
    | inr (e, st, own) ↦
        let (n, f, run, done) =
          catch_up t eager_ok final_ok sent fuel e (Step-Inv cfg sys to_string ipc st i)
            (omega (arith, h, work-IsOwn st own)) in
        (suc n, f, go st own run, done)
  ]

  OwnRun-Inv :
      {n : ℕ} {d e : Daemon ipc}
      → OwnRun n d e
      → Inv cfg sys to_string ipc d
      → Inv cfg sys to_string ipc e
  OwnRun-Inv stop i = i
  OwnRun-Inv (go st own run) i = OwnRun-Inv run (Step-Inv cfg sys to_string ipc st i)

  -- From every reachable state the tasks' own steps, taken in any order, come to an end: after any
  -- n of them n is at most 7, and m more lead to a state in which the debounce task has seen and
  -- published the last focus and the proxy task has served the snapshot and every refresh; n and m
  -- together are at most 7. (Rounds whose writes and signals succeed are possible.)
  pub OwnRun-terminates :
      (disk : Disk) (b : Bridge) (d e : Daemon ipc) (n : ℕ) (t : Round)
      → disk.writes ≡ true
      → Reach cfg sys to_string ipc disk b d
      → OwnRun n d e
      → t.eager_disk.writes ≡ true
      → t.final_disk.writes ≡ true
      → t.signals_sent ≡ true
      → (m : ℕ) × (f : Daemon ipc) × OwnRun m e f × (work f ≡ 0) × (n + m ≤ 7)
  OwnRun-terminates disk b d e n t ok r run eager_ok final_ok sent =
      let i = OwnRun-Inv run (Reach-Inv cfg sys to_string ipc ok r) in
      let (m, f, rest, done) = catch_up t eager_ok final_ok sent (work e) e i (omega arith) in
      (m, f, rest, done, omega (arith, OwnRun-le run, OwnRun-le rest, work-le d))
