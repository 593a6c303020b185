-- ===== src/Lib.antt =====
-- noctalia-appmenu: a daemon for the niri compositor that finds the menu of the focused window and
-- publishes it for a bar widget, and the one-shot commands that the widget runs on a click. This
-- library models the Rust code in bridge/src.
--
-- The parts, and how they interact:
-- - Focus, Niri (bridge/src/focus.rs, niri.rs): niri's event stream becomes focus events.
--   Niri.Detect has `detect_focus_change`, Niri.Stream the loop `drive_events_with`,
--   Niri.Reconnect `run_once_at`, `next_backoff` and `run`, whose sessions Niri.Reconnect.Task
--   puts in place. The loop's channel to Active is the list of published values.
-- - Active (bridge/src/active.rs): the trailing debounce between the focus channel and the proxy
--   task. Active.Debounce is a step relation of the sender, tokio's watch channel and `run`, so
--   every interleaving is a path of it, and Active.Debounce.Timed the same with a clock and a
--   scheduler; Active.Snapshot has `snapshot`.
-- - Proxy (bridge/src/proxy.rs): Proxy.Write has `write_active_json` with its deduplication, and
--   Proxy.Loop one round of `run`: the eager write, the properties, the menu by its three fast
--   paths or by a walk, and the final write. The watcher's clearing of the expensive skips where
--   the a11y bus has restarted, `watch_a11y_status`, comes before a round, both in `run_loop` and
--   in Daemon: a restart in the middle of a round counts for the next one. Proxy.Loop.Shown puts
--   `fetch_menubar_for_pid` in the place of the walk, and Proxy.Place has the path of the file.
--   The state of the loop and the process's statics are the record Bridge. What other processes
--   and the clock answer in a round is the record Round.
-- - Atspi (bridge/src/atspi.rs): Atspi.App finds the application and the window, with the name
--   comparisons of Atspi.Matching; Atspi.Find the menubar; Atspi.Fetch its tree; Atspi.Menubar
--   puts them together. Atspi.Skip has the learned skips, Atspi.Cache the menu cache, and
--   Atspi.Client the shared connection with `watch_a11y_status`, by the calls of Atspi.A11y. The
--   bus's answers are the record World, with `none` for an error reply.
-- - Menu (bridge/src/atspi.rs): the type `MenuItem`, `flatten_qt_wrapper`, and the synthetic
--   menus.
-- - Desktop (bridge/src/desktop.rs): Desktop.Entry parses a .desktop file, Desktop.Exec an Exec
--   value, Desktop.Resolve finds the entry of an app-id and remembers it, Desktop.Fallback makes
--   the menu of an application that has no menubar.
-- - Click (bridge/src/main.rs, atspi.rs, desktop.rs): `run_atspi_click` and `run_atspi_expand`,
--   `do_action`, `expand_and_fetch`, `dispatch_synthetic` and the launchers, as the list of what
--   they do to other processes and the way they end. Click.Rows lists what a click on each item of
--   a fallback menu does.
-- - Daemon (bridge/src/main.rs): the tasks that `main` spawns, with the two watch channels and the
--   `RefreshActive` notification between them, as a step relation over Niri.Stream.on_line,
--   Active.Debounce and Proxy.Loop.round, so every schedule is a path of it.
-- - Main (bridge/src/main.rs): `main` from the parsed command line on: the commands, the start of
--   the daemon, and its end. What it meets outside is the record Host.
-- - Config (bridge/src/config.rs): the configuration and where it is loaded from.
-- - Prelude: the types of the standard library that the code uses, and lemmas on them.
--
-- Conventions. A text is the list of its characters' codes. Instants and durations are numbers of
-- nanoseconds. A HashMap is the function that it is looked up by, and a Mutex a value with a flag
-- that says whether it is poisoned. `i32 as u32` wraps around.
--
-- Specifications. Desktop.Entry.Print writes an entry as a .desktop file, and
-- Desktop.Exec.RoundTrip an argument vector as an Exec value; Proxy.Loop.Spec has the loop without
-- its eager write, its deduplication and its file, and Proxy.Loop.Pushes the list of what the
-- widget is told; Niri.Reconnect.Told says what a line of niri's stream tells, and
-- Atspi.Fetch.Panics which accessibles a walk asks for their children; Desktop.Resolve.Tiers the
-- scan of the directories without its loops; Menu.Flatten.Leaves the leaves of a menu, and
-- Atspi.Fetch.Complete those of the accessibility tree.
--
-- Bounds. The walks recurse on the levels that the source's own limits leave: MAX_FIND_DEPTH = 8
-- and MAX_FETCH_DEPTH = 3, so no fuel is added to them. Loops over children, lines and directory
-- entries recurse on the list. Daemon.Progress counts what the tasks have still to do, which is at
-- most 7, and recurses on it.
--
-- Parameters. Not modelled, and taken as arguments: niri_ipc's state and its JSON parser,
-- serde_json's text of a payload, the TOML reader, the case tables of Unicode, the file system,
-- the environment, and the replies of D-Bus. The answers of the accessibility bus do not change
-- during one walk.
--
-- Not modelled: clap's parser, tracing, in Daemon a task that ends or panics (it ends the process,
-- as Main.shut_down has it), the D-Bus proxies that zbus generates, and the QML widget.
pub mod Prelude
pub mod Menu
pub mod Atspi
pub mod Focus
pub mod Niri
pub mod Desktop
pub mod Config
pub mod Active
pub mod Proxy
pub mod Click
pub mod Daemon
pub mod Main
