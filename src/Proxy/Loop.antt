-- ===== src/Proxy/Loop.antt =====
-- One round of `run` of bridge/src/proxy.rs: the eager write, the properties, the menu by its three
-- fast paths or a walk, and the final write. What other processes answer in a round is its input.
pub mod Provenance
pub mod Walks
pub mod Readable
pub mod Spec
pub mod Fallback
pub mod Pushes
pub mod Calm
pub mod Shown
pub mod Resting
pub mod Rests
pub mod Cached
pub mod Truth
use noctalia_appmenu.Prelude.{
  ℕ, ◌==◌, Bool, true, false, not, ◌&&◌, List, [], ◌∷◌, Option, none, some, if◌then◌else◌, is_empty,
  Text, Duration, Instant,
}
use mathlib.Core.Option
use noctalia_appmenu.Menu.Tree.{MenuItem}
use noctalia_appmenu.Config.{Config}
use noctalia_appmenu.Active.Snapshot.{ActiveSnapshot, empty as no_snapshot}
use noctalia_appmenu.Desktop.Resolve.{System, ResolveCache}
use noctalia_appmenu.Desktop.Fallback.{fallback_menu}
use noctalia_appmenu.Atspi.Skip.{Learned, should_skip, record_negative, forget, clear_expensive}
use noctalia_appmenu.Atspi.Cache.{MenuCache, get, put}
use noctalia_appmenu.Proxy.Write.{
  MenuSource, atspi, desktop_fallback, empty, is_lazy_unreadable, Payload, Writer, Disk,
  write_active_json,
}

-- `ActiveProxyState`
pub record ActiveProxyState : Type 0 where
  pub bus_name : Text
  pub object_path : Text
  pub app_id : Text
  pub title : Text

-- The properties that an object of the given snapshot exports.
abbrev pub props_of : ActiveSnapshot → ActiveProxyState
props_of snap = record {
  bus_name = snap.menu_service;
  object_path = Option.get_or snap.menu_path [];
  app_id = snap.app_id;
  title = snap.title;
}

-- The state of the loop and the process's statics.
pub record Bridge : Type 0 where
  pub learned : Learned
  pub menus : MenuCache
  pub resolved : ResolveCache
  pub writer : Writer
  pub props : ActiveProxyState

-- What `fetch_menubar_for_pid` returns, and how long it took. A walk that panics ends the task, and
-- is no input of a round.
pub data Walk : Type 0 where
  walked : Option MenuItem → Duration → Walk
  walk_failed : Walk

-- What woke the loop: a new snapshot, or `RefreshActive`.
pub data Wake : Type 0 where
  focus_changed : Wake
  refresh_kick : Wake

-- The input of a round: the wake, the value that `borrow_and_update` gives, the instants at which
-- the statics are read, how the writes and signals go, what a walk would return, and whether the
-- a11y bus has restarted since the round before, which another task watches for.
pub record Round : Type 0 where
  pub wake : Wake
  pub snapshot : ActiveSnapshot
  pub eager_at : Instant
  pub eager_resolve_at : Instant
  pub skip_at : Instant
  pub cache_at : Instant
  pub learned_at : Instant
  pub final_resolve_at : Instant
  pub eager_disk : Disk
  pub final_disk : Disk
  pub signals_sent : Bool
  pub walk : Option Text → Walk
  pub restarted : Bool

-- On a refresh `last_body = None`.
unfoldable pub on_wake : Wake → Writer → Writer
on_wake focus_changed w = w
on_wake refresh_kick w = record w { last_body = none }

-- The menu and its source: a fallback, if there is one.
abbrev pub fallback_choice : Option MenuItem → Option MenuItem × MenuSource
fallback_choice none = (none, empty)
fallback_choice (some fb) = (some fb, desktop_fallback)

-- What the watcher of the a11y bus does to the statics where the bus has restarted: it clears the
-- expensive skips.
unfoldable pub after_restart : Bool → Bridge → Bridge
after_restart restarted s = record s {
  learned = if restarted then clear_expensive s.learned else s.learned;
}

module _ (cfg : Config) (sys : System) (to_string : Payload → Text) where
  -- The eager menu: the fallback, for an application known to have no menubar.
  unfoldable pub eager_choice : Round → Bridge → ResolveCache × (Option MenuItem × MenuSource)
  eager_choice r s =
      let (next, fb) = fallback_menu sys s.resolved r.eager_resolve_at r.snapshot.app_id in
      if not (r.snapshot.focus_pid == 0)
        && (cfg.desktop_fallback && should_skip s.learned r.eager_at r.snapshot.app_id)
      then (next, fallback_choice fb)
      else (s.resolved, (none, empty))

  unfoldable pub eager_write : Round → Bridge → Bridge
  eager_write r s =
      let (next, (menu, source)) = eager_choice r s in
      record s {
        resolved = next;
        writer =
            write_active_json to_string r.eager_disk r.snapshot menu source
              (on_wake r.wake s.writer);
      }

  -- The state that `publish_props` sets, before it signals.
  unfoldable pub publish_props : Round → Bridge → Bridge
  publish_props r s = record s { props = props_of r.snapshot }

  -- What a walk teaches.
  unfoldable pub after_walk : Round → Bridge → Walk → Bridge × Option MenuItem
  after_walk r s walk_failed = (s, none)
  after_walk r s (walked menu took) =
      let snap = r.snapshot in
      let menus = put s.menus r.learned_at snap.app_id snap.focus_pid snap.focus_winid menu in
      let learned : Learned = elim menu [
        | some m ↦ forget s.learned snap.app_id
        | none ↦ record_negative s.learned r.learned_at snap.app_id took
      ] in
      (record s { menus = menus; learned = learned }, menu)

  abbrev pub focus_title : ActiveSnapshot → Option Text
  focus_title snap = if is_empty snap.title then none else some snap.title

  -- The menu of the focused window: no focus, a learned skip, a cached walk, or a walk.
  unfoldable pub resolve_menu : Round → Bridge → Bridge × Option MenuItem
  resolve_menu r s =
      let snap = r.snapshot in
      if snap.focus_pid == 0
      then (s, none)
      else if should_skip s.learned r.skip_at snap.app_id
      then (s, none)
      else elim (get s.menus r.cache_at snap.app_id snap.focus_pid snap.focus_winid) [
        | some cached ↦ (s, cached)
        | none ↦ after_walk r s (r.walk (focus_title snap))
      ]

  -- `menu.filter(|m| !is_lazy_unreadable(m))`
  unfoldable pub usable : Option MenuItem → Option MenuItem
  usable none = none
  usable (some m) = if is_lazy_unreadable m then none else some m

  -- The provenance ladder.
  unfoldable pub final_choice :
      Round → ResolveCache → Option MenuItem → ResolveCache × (Option MenuItem × MenuSource)
  final_choice r cache menu =
      let (next, fb) = fallback_menu sys cache r.final_resolve_at r.snapshot.app_id in
      if r.snapshot.focus_pid == 0 then (cache, (none, empty)) else elim (usable menu) [
        | some m ↦ (cache, (some m, atspi))
        | none ↦ if cfg.desktop_fallback then (next, fallback_choice fb) else (cache, (none, empty))
      ]

  unfoldable pub final_write : Round → Bridge → Option MenuItem → Bridge
  final_write r s found =
      let (next, (menu, source)) = final_choice r s.resolved found in
      record s {
        resolved = next;
        writer = write_active_json to_string r.final_disk r.snapshot menu source s.writer;
      }

  -- One round, and whether the loop goes on: it ends where a signal cannot be sent.
  unfoldable pub round : Round → Bridge → Bridge × Bool
  round r s =
      let published = publish_props r (eager_write r s) in
      let (next, menu) = resolve_menu r published in
      if r.signals_sent then (final_write r next menu, true) else (published, false)

  -- Before the loop: the object's state is empty, and an empty snapshot is written.
  unfoldable pub start : Disk → Bridge → Bridge
  start disk s = record s {
    writer =
        write_active_json to_string disk no_snapshot none empty
          (record s.writer { last_body = none });
    props = record { bus_name = []; object_path = []; app_id = []; title = [] };
  }

  -- The loop over its rounds: the states that they end in, until a signal cannot be sent. The
  -- watcher's part comes before a round.
  unfoldable pub run_loop : Bridge → List Round → List Bridge
  run_loop s [] = []
  run_loop s (r ∷ rs) =
      let (next, goes_on) = round r (after_restart r.restarted s) in
      let rest = run_loop next rs in next ∷ (if goes_on then rest else [])
