-- ===== src/Atspi/Menubar.antt =====
-- `fetch_menubar_for_pid` and `fetch_menubar_for_pid_inner` of bridge/src/atspi.rs: the walk as a
-- whole, within its time budget.
pub mod Laws
pub mod Complete
use noctalia_appmenu.Prelude.{
  ℕ, Bool, true, false, Option, none, some, if◌then◌else◌, ltb, is_empty, Text, Unicode, Duration,
  from_millis,
}
use noctalia_appmenu.Menu.Tree.{MenuItem, children}
use noctalia_appmenu.Atspi.World.{Outcome, ok, err, ◌>>=◌, Ref, World}
use noctalia_appmenu.Atspi.App.{Bus, find_app_for_pid}
use noctalia_appmenu.Atspi.Find.{find_menubar}
use noctalia_appmenu.Atspi.Fetch.{fetch_menu_tree}

-- `FETCH_BUDGET`
abbrev pub fetch_budget : Duration
fetch_budget = from_millis 2500

abbrev pub menubar_is_empty : MenuItem → Bool
menubar_is_empty tree = is_empty (children tree)

abbrev pub keep_menubar : MenuItem → Outcome (Option MenuItem)
keep_menubar tree = if menubar_is_empty tree then ok none else ok (some tree)

abbrev pub walk_menubar : World → Option Ref → Outcome (Option MenuItem)
walk_menubar w none = ok none
walk_menubar w (some menubar) = fetch_menu_tree w menubar 0 >>= keep_menubar

abbrev pub walk_app : World → Option Ref → Outcome (Option MenuItem)
walk_app w none = ok none
walk_app w (some app) = find_menubar w app 0 >>= walk_menubar w

-- `bus` is what `client.connection()` gives.
unfoldable pub fetch_menubar_for_pid_inner :
    Unicode → Option Bus → ℕ → Option Text → Option Text → Outcome (Option MenuItem)
fetch_menubar_for_pid_inner u none pid app_id_hint focus_title = err
fetch_menubar_for_pid_inner u (some bus) pid app_id_hint focus_title =
    find_app_for_pid u bus pid app_id_hint focus_title >>= walk_app bus.world

-- `took` is how long the walk takes; over the budget it is dropped.
unfoldable pub fetch_menubar_for_pid :
    Unicode → Option Bus → Duration → ℕ → Option Text → Option Text → Outcome (Option MenuItem)
fetch_menubar_for_pid u bus took pid app_id_hint focus_title =
    if ltb fetch_budget took
    then ok none
    else fetch_menubar_for_pid_inner u bus pid app_id_hint focus_title
