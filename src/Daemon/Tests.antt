-- ===== src/Daemon/Tests.antt =====
-- One focus on its way from niri's stream to the file.
use noctalia_appmenu.Prelude.{
  ℕ, ◌+◌, ◌≤◌, ◌≡◌, refl, ◌≢◌, true, find, trim, is_whitespace, text_eq, codes,
}
use noctalia_appmenu.Niri.Detect.{detect_focus_change, emit_for}
use noctalia_appmenu.Niri.Stream.{on_line, published_by}
use noctalia_appmenu.Niri.Stream.Laws.{IsGenuine}
use noctalia_appmenu.Niri.Tests.{small_niri}
use noctalia_appmenu.Active.Snapshot.{snapshot}
use noctalia_appmenu.Active.Debounce.{awaiting, sleeping, after_changed}
use noctalia_appmenu.Config.{default_config}
use noctalia_appmenu.Proxy.Loop.{Round}
use noctalia_appmenu.Proxy.Tests.{encode, fresh, works, reading}
use noctalia_appmenu.Desktop.Tests.{machine}
use noctalia_appmenu.Daemon.{
  Daemon, launched, after_line, after_publish, after_round, reads, wakes, publishes, rounds, Reach,
  begin, next,
}
use noctalia_appmenu.Daemon.Settled.{last_focus, IsShown, Reach-IsPublished}
use noctalia_appmenu.Daemon.Progress.{OwnRun, stop, go, work, OwnRun-terminates}

abbrev up : Daemon small_niri
up = launched default_config machine encode small_niri works fresh

abbrev focused : Daemon small_niri
focused = after_line default_config machine encode small_niri up (codes "windows\n")

abbrev asleep : Daemon small_niri
asleep = record focused { debounce = after_changed focused.debounce }

abbrev announced : Daemon small_niri
announced = after_publish default_config machine encode small_niri asleep

abbrev viewing : Round
viewing = record reading { snapshot = announced.active }

abbrev shown : Daemon small_niri
shown = after_round default_config machine encode small_niri announced viewing

is_awake : (focused.debounce.phase ≡ awaiting) × (focused.debounce.unseen ≡ true)
unfolding on_line published_by detect_focus_change emit_for trim is_whitespace text_eq find
is_awake = (refl, refl)

to_shown : Reach default_config machine encode small_niri works fresh shown
to_shown =
    next
      (next (next (next begin (reads (codes "windows\n"))) (wakes is_awake.0 is_awake.1))
        (publishes refl))
      (rounds viewing refl refl refl refl refl)

shown-ne-sleeping : shown.debounce.phase ≢ sleeping
shown-ne-sleeping e = absurd (cc)

Reach-IsPublished_example :
    IsShown default_config machine encode small_niri
      (snapshot (last_focus shown.debounce.sent))
      shown.bridge
    × IsGenuine small_niri small_niri.default (last_focus shown.debounce.sent)
Reach-IsPublished_example =
    Reach-IsPublished default_config machine encode small_niri works fresh shown refl to_shown refl
      shown-ne-sleeping refl

to_announced : Reach default_config machine encode small_niri works fresh announced
to_announced =
    next (next (next begin (reads (codes "windows\n"))) (wakes is_awake.0 is_awake.1))
      (publishes refl)

one_round : OwnRun default_config machine encode small_niri 1 announced shown
one_round = go (rounds viewing refl refl refl refl refl) tt stop

OwnRun-terminates_example :
    (m : ℕ) × (f : Daemon small_niri) × OwnRun default_config machine encode small_niri m shown f
    × (work default_config machine encode small_niri f ≡ 0)
    × (1 + m ≤ 7)
OwnRun-terminates_example =
    OwnRun-terminates default_config machine encode small_niri works fresh announced shown 1 reading
      refl to_announced one_round refl refl refl
