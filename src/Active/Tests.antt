-- ===== src/Active/Tests.antt =====
-- The debounce on one focus change, from the send to the published snapshot.
use noctalia_appmenu.Prelude.{
  ◌≡◌, refl, ◌⊎◌, ◌≢◌, [], Option, some, codes, ◌≤◌, ◌*◌, ◌+◌, ℕ, arith, length, Duration,
  from_millis,
}
use noctalia_appmenu.Focus.{FocusEvent}
use noctalia_appmenu.Active.Snapshot.{snapshot}
use noctalia_appmenu.Active.Debounce.{
  sleeping, Debounce, initial, after_send, after_changed, after_sleep, send, changed, sleep_over,
  Reach, start, next,
}
use noctalia_appmenu.Config.{default_config}
use noctalia_appmenu.Active.Debounce.Timed.{
  Clocked, clock_start, clock_send, clock_changed, clock_sleep_over, IsPrompt, passes, sends,
  changes, wakes, Run, begins, goes_on, IsSpaced, Run-IsSpaced, Run-settled,
}
use noctalia_appmenu.Active.Debounce.Laws.{Reach-settled, last}

abbrev terminal : FocusEvent
terminal = record { winid = 7; pid = 42; app_id = codes "kitty"; title = codes "~" }

abbrev settled : Debounce
settled = after_sleep (after_changed (after_send initial (some terminal)))

settled-Reach : Reach settled
settled-Reach =
    next (next (next start (send (some terminal) refl)) (changed refl refl)) (sleep_over refl)

settled-ne-sleeping : settled.phase ≢ sleeping
settled-ne-sleeping e = absurd (cc)

Reach-settled_example :
    (settled.sent ≡ [])
    ⊎ ((v : Option FocusEvent) × (last settled.sent ≡ some v)
        × (last settled.published ≡ some (snapshot v)))
Reach-settled_example = Reach-settled settled settled-Reach refl settled-ne-sleeping

-- The same with the clock, which goes on for a second after the publication.
abbrev debounce : Duration
debounce = from_millis default_config.focus_debounce_ms

abbrev woken : Clocked
woken = clock_changed debounce (clock_send clock_start (some terminal))

abbrev later : Clocked → ℕ → Clocked
later c n = record c { now = c.now + n }

abbrev calm : Clocked
calm = later (clock_sleep_over (later woken debounce)) (from_millis 1000)

calm-Run : Run debounce IsPrompt calm
calm-Run =
    goes_on
      (goes_on
        (goes_on (goes_on (goes_on begins (sends (some terminal) refl)) (changes refl refl))
          (passes debounce ((λ e. absurd (cc)), (λ e. omega arith))))
        (wakes refl (omega arith)))
      (passes (from_millis 1000) ((λ e. refl), (λ e. absurd (cc))))

Run-IsSpaced_example :
    IsSpaced debounce IsPrompt calm.published_at
    × (length calm.task.published * debounce ≤ calm.now)
Run-IsSpaced_example = Run-IsSpaced debounce IsPrompt calm calm-Run

Run-settled_example :
    (calm.task.sent ≡ [])
    ⊎ ((v : Option FocusEvent) × (last calm.task.sent ≡ some v)
        × (last calm.task.published ≡ some (snapshot v)))
Run-settled_example = Run-settled debounce IsPrompt (λ c n h. h) calm calm-Run (omega arith)
