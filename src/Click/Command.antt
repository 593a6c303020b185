-- ===== src/Click/Command.antt =====
-- `run_atspi_click` and `run_atspi_expand` of bridge/src/main.rs.
pub mod Laws
use noctalia_appmenu.Prelude.{
  ℕ, ltb, Bool, true, false, Option, none, some, List, [], ◌∷◌, ◌++◌, if◌then◌else◌, Text, Instant,
}
use noctalia_appmenu.Menu.Tree.{MenuItem, children}
use noctalia_appmenu.Desktop.Resolve.{System, ResolveCache}
use noctalia_appmenu.Click.Effect.{
  Effect, focus_window, slept, refreshed, printed, Failure, stale, failed, panicked, Result, done,
  failure, Ran, Replies,
}
use noctalia_appmenu.Click.Action.{do_action, expand_and_fetch}

-- How the process ends: 0, `std::process::exit(2)`, an error of `main`, or a panic.
pub data Exit : Type 0 where
  exit_success : Exit
  exit_stale : Exit
  exit_failure : Exit
  exit_panic : Exit

abbrev pub niri_focus_window : Replies → ℕ → Ran (Unit {0})
niri_focus_window re winid =
    if re.niri_connects
    then (
      focus_window winid ∷ [],
      elim (re.focuses winid) [
        | none ↦ failure failed
        | some handled ↦ if handled then done tt else failure failed
      ],
    )
    else ([], failure failed)

-- The settle window, after a pre-focus that succeeded.
abbrev pub settle : ℕ → Result (Unit {0}) → List Effect
settle focus_settle_ms (done _) = slept focus_settle_ms ∷ []
settle focus_settle_ms (failure f) = []

-- `signal_refresh_active`, whose result its callers only log.
abbrev pub signal_refresh_active : Replies → List Effect
signal_refresh_active re = if re.has_session then refreshed ∷ [] else []

-- The pre-focus: a failure of it does not end the command.
unfoldable pub pre_focus : Replies → ℕ → ℕ → List Effect
pre_focus re winid focus_settle_ms =
    if ltb 0 winid
    then (let (effects, result) = niri_focus_window re winid in
        effects ++ settle focus_settle_ms result)
    else []

-- The `Err` arm of both.
abbrev pub give_up : Replies → Failure → List Effect × Exit
give_up re (stale service path) = (signal_refresh_active re, exit_stale)
give_up re failed = ([], exit_failure)
give_up re panicked = ([], exit_panic)

abbrev pub end_click : Replies → Result (Unit {0}) → List Effect × Exit
end_click re (done _) = ([], exit_success)
end_click re (failure f) = give_up re f

abbrev pub end_expand : Replies → Result MenuItem → List Effect × Exit
end_expand re (done tree) = (printed (children tree) ∷ signal_refresh_active re, exit_success)
end_expand re (failure f) = give_up re f

module _ (re : Replies) (sys : System) (cache : ResolveCache) (now : Instant) where
  unfoldable pub run_atspi_click : Text → Text → ℕ → ℕ → List Effect × Exit
  run_atspi_click service path winid focus_settle_ms =
      let (effects, result) = do_action re sys cache now service path in
      let (last, exit) = end_click re result in
      (pre_focus re winid focus_settle_ms ++ (effects ++ last), exit)

  unfoldable pub run_atspi_expand : Text → Text → ℕ → ℕ → List Effect × Exit
  run_atspi_expand service path winid focus_settle_ms =
      let (effects, result) = expand_and_fetch re service path in
      let (last, exit) = end_expand re result in
      (pre_focus re winid focus_settle_ms ++ (effects ++ last), exit)
