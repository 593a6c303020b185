-- ===== src/Main.antt =====
-- `main` of bridge/src/main.rs: the command line, the one-shot commands, and the start and end of
-- the daemon. What the process meets outside is the record Host.
pub mod Laws
mod Tests
use noctalia_appmenu.Prelude.{
  ℕ, Bool, true, false, ◌&&◌, List, [], ◌∷◌, Option, none, some, if◌then◌else◌, Text, Instant,
}
use noctalia_appmenu.Config.{Config, ConfigFiles, load}
use noctalia_appmenu.Desktop.Entry.{Env}
use noctalia_appmenu.Desktop.Resolve.{System, ResolveCache}
use noctalia_appmenu.Click.Effect.{Effect, Replies}
use noctalia_appmenu.Click.Command.{
  Exit, exit_success, exit_failure, run_atspi_click, run_atspi_expand,
}

-- service, path, winid and focus_settle_ms
pub data Cmd : Type 0 where
  atspi_click : Text → Text → ℕ → ℕ → Cmd
  atspi_expand : Text → Text → ℕ → ℕ → Cmd

pub record Cli : Type 0 where
  pub foreground : Bool
  pub version_json : Bool
  pub config : Option Text
  pub cmd : Option Cmd

-- Which arm of the last `select!` is taken.
pub data Ended : Type 0 where
  sigterm : Ended
  sigint : Ended
  niri_task : Ended
  active_task : Ended
  proxy_task : Ended

-- The environment and the files, whether `enable_a11y`, `Connection::session` and the registrations
-- of the two signals succeed, and what ends the daemon.
pub record Host : Type 0 where
  pub env : Env
  pub files : ConfigFiles
  pub enables_a11y : Bool
  pub has_session : Bool
  pub has_sigterm : Bool
  pub has_sigint : Bool
  pub ended : Ended

-- What the process has done: whether it printed its version, what its command did, whether
-- `enable_a11y` was called and succeeded, the configuration that the tasks were spawned with, and
-- the way it ended.
pub record Run : Type 0 where
  pub printed_version : Bool
  pub effects : List Effect
  pub a11y : Option Bool
  pub tasks : Option Config
  pub exit : Exit

abbrev ended_at : Option Bool → Option Config → Exit → Run
ended_at a11y tasks exit = record {
  printed_version = false;
  effects = [];
  a11y = a11y;
  tasks = tasks;
  exit = exit;
}

-- The arms of the `select!`.
unfoldable pub shut_down : Ended → Exit
shut_down sigterm = exit_success
shut_down sigint = exit_success
shut_down niri_task = exit_failure
shut_down active_task = exit_failure
shut_down proxy_task = exit_failure

-- The daemon, from the configuration on.
unfoldable pub run_daemon : Host → Option Text → Run
run_daemon host path = elim (load host.env host.files path) [
  | none ↦ ended_at none none exit_failure
  | some cfg ↦
      if host.has_session
      then ended_at (some host.enables_a11y) (some cfg)
          (if host.has_sigterm && host.has_sigint then shut_down host.ended else exit_failure)
      else ended_at (some host.enables_a11y) none exit_failure
]

abbrev commanded : List Effect × Exit → Run
commanded (effects, exit) = record {
  printed_version = false;
  effects = effects;
  a11y = none;
  tasks = none;
  exit = exit;
}

module _ (host : Host) (re : Replies) (sys : System) (cache : ResolveCache) (now : Instant) where
  unfoldable pub run_cmd : Cmd → Run
  run_cmd (atspi_click service path winid focus_settle_ms) =
      commanded (run_atspi_click re sys cache now service path winid focus_settle_ms)
  run_cmd (atspi_expand service path winid focus_settle_ms) =
      commanded (run_atspi_expand re sys cache now service path winid focus_settle_ms)

  unfoldable pub main : Cli → Run
  main cli =
      if cli.version_json
      then record (ended_at none none exit_success) { printed_version = true }
      else elim cli.cmd [ some cmd ↦ run_cmd cmd | none ↦ run_daemon host cli.config ]
