-- ===== src/Daemon.antt =====
-- The tasks that `main` of bridge/src/main.rs spawns, with the two `watch` channels and the
-- `RefreshActive` notification between them, as a step relation: every schedule of the tasks is a
-- path of it.
pub mod Settled
pub mod Progress
mod Tests
use noctalia_appmenu.Prelude.{
  ℕ, ◌≡◌, ◌⊎◌, Bool, true, false, List, [], ◌∷◌, Option, none, some, if◌then◌else◌, Text,
}
use noctalia_appmenu.Focus.{FocusEvent}
use noctalia_appmenu.Niri.Detect.{NiriIpc}
use noctalia_appmenu.Niri.Stream.{on_line}
use noctalia_appmenu.Active.Snapshot.{ActiveSnapshot, empty, snapshot}
use noctalia_appmenu.Active.Debounce.{
  awaiting, sleeping, Debounce, initial, after_send, after_changed, after_sleep,
}
use noctalia_appmenu.Config.{Config}
use noctalia_appmenu.Desktop.Resolve.{System}
use noctalia_appmenu.Proxy.Write.{Payload, Disk}
use noctalia_appmenu.Proxy.Loop.{
  Bridge, Wake, focus_changed, refresh_kick, Round, round, after_restart, start,
}

-- The niri task's state, the debounce task with the focus channel, the active channel, whether a
-- `RefreshActive` waits, and the proxy task.
pub record Daemon (ipc : NiriIpc) : Type 0 where
  pub niri : ipc.State
  pub debounce : Debounce
  pub active : ActiveSnapshot
  pub active_unseen : Bool
  pub refresh : Bool
  pub bridge : Bridge

module _ (cfg : Config) (sys : System) (to_string : Payload → Text) (ipc : NiriIpc) where
  -- What the daemon starts with, before the first await of any task but the proxy's first write.
  abbrev pub launched : Disk → Bridge → Daemon ipc
  launched disk b = record {
    niri = ipc.default;
    debounce = initial;
    active = empty;
    active_unseen = false;
    refresh = false;
    bridge = start cfg sys to_string disk b;
  }

  abbrev pub send_all : Debounce → List (Option FocusEvent) → Debounce
  send_all s [] = s
  send_all s (v ∷ vs) = send_all (after_send s v) vs

  -- One line of niri's event stream.
  abbrev pub after_line : Daemon ipc → Text → Daemon ipc
  after_line d buf = record d {
    niri = (on_line ipc d.niri buf).0;
    debounce = send_all d.debounce (on_line ipc d.niri buf).1;
  }

  -- The debounce's sleep is over: its snapshot goes into the active channel.
  abbrev pub after_publish : Daemon ipc → Daemon ipc
  after_publish d = record d {
    debounce = after_sleep d.debounce;
    active = snapshot d.debounce.latest;
    active_unseen = true;
  }

  -- What the `select!` of the proxy task takes.
  abbrev pub Wakes : Daemon ipc → Wake → Type 0
  Wakes d focus_changed = d.active_unseen ≡ true
  Wakes d refresh_kick = d.refresh ≡ true

  abbrev pub still_waits : Wake → Bool → Bool
  still_waits focus_changed b = b
  still_waits refresh_kick b = false

  -- A round of the proxy task, which takes the value of the channel whatever woke it.
  abbrev pub after_round : Daemon ipc → Round → Daemon ipc
  after_round d r = record d {
    active_unseen = false;
    refresh = still_waits r.wake d.refresh;
    bridge = (round cfg sys to_string r (after_restart r.restarted d.bridge)).0;
  }

  pub data Step (d : Daemon ipc) : Daemon ipc → Type 0 where
    -- a line of the stream is read
    reads : (buf : Text) → Step d (after_line d buf)
    -- a new session begins, with a fresh state
    reconnects : Step d (record d { niri = ipc.default })
    -- the debounce task sees a focus, and goes to sleep
    wakes :
        d.debounce.phase ≡ awaiting
        → d.debounce.unseen ≡ true
        → Step d (record d { debounce = after_changed d.debounce })
    publishes : d.debounce.phase ≡ sleeping → Step d (after_publish d)
    -- a click asks for a refresh
    refreshes : Step d (record d { refresh = true })
    -- a round of the proxy task whose writes and signals succeed
    rounds :
        (r : Round)
        → Wakes d r.wake
        → r.snapshot ≡ d.active
        → r.eager_disk.writes ≡ true
        → r.final_disk.writes ≡ true
        → r.signals_sent ≡ true
        → Step d (after_round d r)

  pub data Reach (disk : Disk) (b : Bridge) : Daemon ipc → Type 0 where
    begin : Reach disk b (launched disk b)
    next : {d e : Daemon ipc} → Reach disk b d → Step d e → Reach disk b e
