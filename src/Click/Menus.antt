-- ===== src/Click/Menus.antt =====
-- The ids of the fallback menus of bridge/src/desktop.rs, and the click on a submenu.
use noctalia_appmenu.Prelude.{
  ◌≡◌, refl, text_eq, inl, inr, [], some, arith, Text, codes, Instant, is_empty, trim, Option-cases,
  Bool-cases,
}
use noctalia_appmenu.Prelude.Str.Split.{split_once}
use noctalia_appmenu.Menu.Tree.{MenuItem, Everywhere}
use noctalia_appmenu.Menu.Synthetic.{niri_leaf, synthetic_menu}
use noctalia_appmenu.Desktop.Entry.{DesktopEntry}
use noctalia_appmenu.Desktop.Resolve.{System, ResolveCache, resolve}
use noctalia_appmenu.Desktop.Fallback.{
  separator, launch_leaf, action_leaf, build_enriched, fallback_menu,
}
use noctalia_appmenu.Desktop.Fallback.Shape.{
  IsNumbered, HoldsOfMenus, HoldsOfLaunches, synthetic_menu-Everywhere, build_enriched-Everywhere,
}
use noctalia_appmenu.Click.Effect.{done, Replies}
use noctalia_appmenu.Click.Launch.{dispatch_niri_action, dispatch_to, dispatch_synthetic}

menus-IsNumbered : HoldsOfMenus IsNumbered
unfolding separator niri_leaf
menus-IsNumbered = record {
  gap = λ idx. tt;
  compositor = λ idx label action. tt;
  menu = λ f ms s p h. h;
}

launches-IsNumbered : (entry : DesktopEntry) → HoldsOfLaunches IsNumbered entry
unfolding launch_leaf action_leaf
launches-IsNumbered entry = record { launch = λ idx label icon. tt; act = λ idx label icon a h. tt }

-- In every fallback menu, at every level, the ids of the items are their positions: no two siblings
-- share an id.
pub fallback_menu-IsNumbered :
    (sys : System) (cache : ResolveCache) (now : Instant) (app_id : Text) (m : MenuItem)
    → (fallback_menu sys cache now app_id).1 ≡ some m
    → Everywhere IsNumbered m
unfolding fallback_menu
fallback_menu-IsNumbered sys cache now app_id m e = elim (Bool-cases (is_empty (trim app_id))) [
  | inl empty ↦ absurd (ground arith)
  | inr named ↦ elim (Option-cases ((resolve sys cache now (trim app_id)).1)) [
    | inl n ↦
        let same : synthetic_menu sys.unicode (trim app_id) ≡ m = ground arith in
        rw (← same)
          (synthetic_menu-Everywhere IsNumbered menus-IsNumbered sys.unicode (trim app_id))
    | inr (entry, r) ↦
        let same : build_enriched sys.unicode (trim app_id) entry ≡ m = ground arith in
        rw (← same) (
          build_enriched-Everywhere IsNumbered menus-IsNumbered entry (launches-IsNumbered entry)
            sys.unicode (trim app_id))
  ]
]

module _ (re : Replies) (sys : System) (cache : ResolveCache) (now : Instant) where
  -- A click on a submenu does nothing.
  pub noop-runs : dispatch_synthetic re sys cache now (codes "niri:noop") ≡ ([], done tt)
  unfolding dispatch_synthetic dispatch_to dispatch_niri_action split_once text_eq
  noop-runs = refl
