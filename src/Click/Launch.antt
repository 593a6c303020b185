-- ===== src/Click/Launch.antt =====
-- `spawn_detached`, `launch_app` and `launch_action` of bridge/src/desktop.rs, `dispatch_synthetic`
-- and `dispatch_niri_action` of bridge/src/atspi.rs.
pub mod Laws
use noctalia_appmenu.Prelude.{
  ℕ, Bool, List, [], ◌∷◌, Option, none, some, if◌then◌else◌, is_empty, find, text_eq, Text, codes,
  Instant,
}
use noctalia_appmenu.Prelude.Str.Split.{split_once}
use noctalia_appmenu.Desktop.Entry.{DesktopEntry, DesktopAction}
use noctalia_appmenu.Desktop.Exec.{exec_to_argv}
use noctalia_appmenu.Desktop.Resolve.{System, ResolveCache, resolve}
use noctalia_appmenu.Click.Effect.{
  Effect, niri_action, spawned, Failure, failed, Result, done, failure, Ran, Replies,
}

-- an error with no effect before it
abbrev pub refused : {A : Type 0} → Ran A
refused = ([], failure failed)

unfoldable pub spawn_detached : Replies → List Text → Ran (Unit {0})
spawn_detached re [] = refused
spawn_detached re (prog ∷ rest) =
    if re.spawns (prog ∷ rest) then (spawned (prog ∷ rest) ∷ [], done tt) else refused

-- `if argv.is_empty() { bail }` and `spawn_detached`
abbrev pub run_exec : Replies → Text → Ran (Unit {0})
run_exec re exec =
    let argv = exec_to_argv exec in if is_empty argv then refused else spawn_detached re argv

module _ (re : Replies) (sys : System) (cache : ResolveCache) (now : Instant) where
  unfoldable pub launch_app : Text → Ran (Unit {0})
  launch_app id = elim ((resolve sys cache now id).1) [
    | none ↦ refused
    | some entry ↦ run_exec re entry.exec
  ]

  unfoldable pub launch_action : Text → Text → Ran (Unit {0})
  launch_action id action_id = elim ((resolve sys cache now id).1) [
    | none ↦ refused
    | some entry ↦ elim (find (λ a. text_eq a.id action_id) entry.actions) [
      | none ↦ refused
      | some action ↦ run_exec re action.exec
    ]
  ]

  unfoldable pub dispatch_niri_action : Text → Ran (Unit {0})
  dispatch_niri_action action =
      if text_eq action (codes "noop")
      then ([], done tt)
      else (niri_action action ∷ [], if re.niri_succeeds action then done tt else failure failed)

  -- The `match` on the dispatcher.
  unfoldable pub dispatch_to : Text → Text → Ran (Unit {0})
  dispatch_to dispatcher action =
      if text_eq dispatcher (codes "niri")
      then dispatch_niri_action action
      else if text_eq dispatcher (codes "xdg")
      then launch_app action
      else if text_eq dispatcher (codes "xdg-action")
      then elim (split_once b':' action) [ none ↦ refused | some p ↦ launch_action p.0 p.1 ]
      else refused

  unfoldable pub dispatch_synthetic : Text → Ran (Unit {0})
  dispatch_synthetic path = elim (split_once b':' path) [
    | none ↦ refused
    | some p ↦ dispatch_to p.0 p.1
  ]
