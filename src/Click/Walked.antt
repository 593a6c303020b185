-- ===== src/Click/Walked.antt =====
-- A click on an item of a walked menu acts on the accessible that the item shows.
use noctalia_appmenu.Prelude.{
  ℕ, ◌≡◌, true, false, List, [], ◌∷◌, ◌++◌, none, some, arith, if◌then◌else◌, text_eq, Instant,
}
use noctalia_appmenu.Menu.Tree.{MenuItem, fields, Everywhere, map-Everywhere}
use noctalia_appmenu.Menu.Synthetic.{synthetic_service}
use noctalia_appmenu.Atspi.World.{ok, Ref, World}
use noctalia_appmenu.Atspi.Fetch.{fields_of, fetch_menu_tree}
use noctalia_appmenu.Atspi.Fetch.Origin.{Below, itself, child, Names, fetch_menu_tree-Names}
use noctalia_appmenu.Desktop.Resolve.{System, ResolveCache}
use noctalia_appmenu.Click.Effect.{Effect, probed, acted, Replies}
use noctalia_appmenu.Click.Action.{probe_then, act, do_action}
use noctalia_appmenu.Click.Command.{
  Exit, exit_success, exit_stale, exit_failure, pre_focus, signal_refresh_active, run_atspi_click,
}

-- No accessible below the root lives on a service of the name `::synthetic`, which is no bus name:
-- one that begins with a colon has a dot.
pub record IsOnBus (w : World) (root : Ref) : Type 0 where
  pub at_root : text_eq root.service synthetic_service ≡ false
  pub at_child :
      (r c : Ref) (i : ℕ)
      → w.get_child_at_index r i ≡ some c
      → text_eq c.service synthetic_service ≡ false

Below-ne-synthetic :
    (w : World) (root r : Ref)
    → IsOnBus w root
    → Below w root r
    → text_eq r.service synthetic_service ≡ false
Below-ne-synthetic w root r h itself = h.at_root
Below-ne-synthetic w root r h (child {r = s} i b e) = h.at_child s r i e

-- The bus is reached, and the paths and proxies of accessibles build.
pub record IsConnected (re : Replies) : Type 0 where
  pub connects : re.connects ≡ true
  pub has_path : (r : Ref) → re.has_path r ≡ true
  pub has_accessible : (r : Ref) → re.has_accessible r ≡ true
  pub has_action : (r : Ref) → re.has_action r ≡ true

-- What a click on an accessible comes to: where it answers the probe, one `DoAction(0)` on it, and
-- its reply; where it is gone, a refresh and the status 2.
abbrev pub click_on : Replies → Ref → List Effect × Exit
click_on re r =
    if re.probe_answers r
    then (
      probed r ∷ acted r ∷ [],
      elim (re.do_action r) [
        | none ↦ exit_failure
        | some actionable ↦ if actionable then exit_success else exit_failure
      ],
    )
    else (probed r ∷ signal_refresh_active re, exit_stale)

module _ (re : Replies) (sys : System) (cache : ResolveCache) (now : Instant) (w : World)
    (root : Ref) (winid settle : ℕ) where
  -- The item has the name of an accessible below the root, and a click on it is one on that
  -- accessible.
  abbrev pub IsClickable : MenuItem → Type 0
  IsClickable m =
      (r : Ref) × Below w root r
      × ((fields m).label ≡ (fields_of w r).label)
      × (run_atspi_click re sys cache now (fields m).service (fields m).path winid settle
          ≡ (pre_focus re winid settle ++ (click_on re r).0, (click_on re r).1))

  run_atspi_click-click_on :
      (r : Ref)
      → IsConnected re
      → text_eq r.service synthetic_service ≡ false
      → run_atspi_click re sys cache now r.service r.path winid settle
        ≡ (pre_focus re winid settle ++ (click_on re r).0, (click_on re r).1)
  unfolding run_atspi_click do_action probe_then act
  run_atspi_click-click_on r h n =
      ground (arith, n, h.connects, h.has_path r, h.has_accessible r, h.has_action r)

  -- Every item of the tree that a walk returns has the name of an accessible of the walked
  -- application, below the menubar, and a click on the item acts on that very accessible: after
  -- aligning the focus, one `DoAction(0)` where it answers the probe, else a refresh and the status
  -- 2. (Bus names are not `::synthetic`, and the click reaches the bus.)
  pub fetch_menu_tree-IsClickable :
      (cur_depth : ℕ) (m : MenuItem)
      → IsOnBus w root
      → IsConnected re
      → fetch_menu_tree w root cur_depth ≡ ok m
      → Everywhere IsClickable m
  fetch_menu_tree-IsClickable cur_depth m b h e =
      map-Everywhere clickable m (fetch_menu_tree-Names w root cur_depth m e)
    where
      clickable : (n : MenuItem) → Names w root n → IsClickable n
      clickable n (r, below, service, path, label) = (
        r,
        below,
        label,
        rw (service, path) (run_atspi_click-click_on r h (Below-ne-synthetic w root r b below)),
      )
