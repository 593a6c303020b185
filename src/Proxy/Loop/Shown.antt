-- ===== src/Proxy/Loop/Shown.antt =====
-- From the accessibility bus to the file: a round whose walk is `fetch_menubar_for_pid`.
use noctalia_appmenu.Prelude.{◌≡◌, ◌≢◌, false, Option, none, some, Text, Unicode, Duration}
use noctalia_appmenu.Menu.Tree.{MenuItem}
use noctalia_appmenu.Config.{Config}
use noctalia_appmenu.Desktop.Resolve.{System}
use noctalia_appmenu.Atspi.World.{Outcome, ok, err, panic}
use noctalia_appmenu.Atspi.App.{Bus}
use noctalia_appmenu.Atspi.Skip.{should_skip}
use noctalia_appmenu.Atspi.Cache.{get}
use noctalia_appmenu.Atspi.Menubar.{fetch_menubar_for_pid}
use noctalia_appmenu.Proxy.Write.{Payload}
use noctalia_appmenu.Proxy.Loop.{Bridge, Round, Walk, walked, walk_failed, focus_title}

-- The arms on the result of the walk; a panic ends the task, and no round is left.
unfoldable pub walk_of : Outcome (Option MenuItem) → Duration → Walk
walk_of (ok menu) took = walked menu took
walk_of err took = walk_failed
walk_of panic took = walk_failed

module _ (cfg : Config) (sys : System) (to_string : Payload → Text) (u : Unicode) (b : Bus) where
  -- The round looks at the tree, since it has a focus that is neither skipped nor cached, and its
  -- walk is that of the bus.
  pub record Looks (r : Round) (s : Bridge) (took : Duration) : Type 0 where
    pub focused : r.snapshot.focus_pid ≢ 0
    pub unskipped : should_skip s.learned r.skip_at r.snapshot.app_id ≡ false
    pub uncached :
        get s.menus r.cache_at r.snapshot.app_id r.snapshot.focus_pid r.snapshot.focus_winid ≡ none
    pub walks :
        r.walk (focus_title cfg sys to_string r.snapshot)
        ≡ walk_of
            (fetch_menubar_for_pid u
              (some b)
              took
              r.snapshot.focus_pid
              (some r.snapshot.app_id)
              (focus_title cfg sys to_string r.snapshot))
            took
