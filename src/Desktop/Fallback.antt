-- ===== src/Desktop/Fallback.antt =====
-- `build_enriched` and `fallback_menu`: the menu of an application that has no menubar.
pub mod Shape
use noctalia_appmenu.Prelude.{
  ℕ, suc, ◌+◌, true, false, List, [], ◌∷◌, ◌++◌, Option, none, some, if◌then◌else◌, is_empty,
  length, trim, Text, codes, Instant, Unicode,
}
use noctalia_appmenu.Menu.Tree.{MenuItem, item, blank}
use noctalia_appmenu.Menu.Synthetic.{
  synthetic_service, niri_leaf, synthetic_submenu, synthetic_window_submenu, pretty_app_label,
  synthetic_menu,
}
use noctalia_appmenu.Desktop.Entry.{DesktopEntry, DesktopAction}
use noctalia_appmenu.Desktop.Resolve.{System, ResolveCache, resolve}

-- The fields that `action_leaf` and `launch_leaf` share.
abbrev leaf : ℕ → Text → Text → Text → MenuItem
leaf idx label icon path =
    item
      (record blank {
        id = idx;
        label = label;
        item_type = codes "standard";
        enabled = true;
        visible = true;
        icon_name = icon;
        service = synthetic_service;
        path = path;
      })
      []

unfoldable pub action_leaf : ℕ → Text → Text → Text → Text → MenuItem
action_leaf idx label desktop_id action_id icon =
    leaf idx label icon (codes "xdg-action:" ++ (desktop_id ++ b':' ∷ action_id))

unfoldable pub launch_leaf : ℕ → Text → Text → Text → MenuItem
launch_leaf idx label desktop_id icon = leaf idx label icon (codes "xdg:" ++ desktop_id)

unfoldable pub separator : ℕ → MenuItem
separator idx =
    item (record blank { id = idx; item_type = codes "separator"; enabled = false; visible = true })
      []

-- The leaf of a declared action.
unfoldable pub leaf_of : DesktopEntry → ℕ → DesktopAction → MenuItem
leaf_of entry idx action =
    action_leaf idx (if is_empty (trim action.name) then action.id else trim action.name) entry.id
      action.id (if is_empty (trim action.icon) then entry.icon else action.icon)

-- The loop over the declared actions, `idx` counting.
unfoldable pub action_leaves : DesktopEntry → ℕ → List DesktopAction → List MenuItem
action_leaves entry idx [] = []
action_leaves entry idx (action ∷ rest) =
    leaf_of entry idx action ∷ action_leaves entry (suc idx) rest

-- The items in front of the separator.
unfoldable pub launch_items : DesktopEntry → List DesktopAction → List MenuItem
launch_items entry [] =
    if is_empty (trim entry.exec)
    then []
    else launch_leaf 0 (codes "New Window") entry.id entry.icon ∷ []
launch_items entry (action ∷ rest) = action_leaves entry 0 (action ∷ rest)

-- The application submenu's items: the launch items, a separator if there are any, and Quit.
unfoldable pub app_items : Text → List MenuItem → List MenuItem
app_items pretty [] = niri_leaf 0 (codes "Quit " ++ pretty) (codes "close-window") ∷ []
app_items pretty (k ∷ ks) =
    let n = length (k ∷ ks) in
    (k ∷ ks)
    ++ (separator n ∷ niri_leaf (n + 1) (codes "Quit " ++ pretty) (codes "close-window") ∷ [])

unfoldable pub build_enriched : Unicode → Text → DesktopEntry → MenuItem
build_enriched u app_id entry =
    let pretty =
      if is_empty (trim entry.name) then pretty_app_label u app_id else trim entry.name in
    item
      (record blank {
        id = 0;
        label = pretty;
        item_type = codes "submenu";
        enabled = true;
        visible = true;
        icon_name = entry.icon;
        service = synthetic_service;
        path = codes "niri:noop";
      })
      (synthetic_submenu 0 pretty (app_items pretty (launch_items entry entry.actions))
        ∷ synthetic_window_submenu
        ∷ [])

-- `fallback_menu` at an instant: the resolver's new cache, and the menu.
unfoldable pub fallback_menu :
    System → ResolveCache → Instant → Text → ResolveCache × Option MenuItem
fallback_menu sys cache now app_id =
    let trimmed = trim app_id in
    let (next, found) = resolve sys cache now trimmed in
    if is_empty trimmed then (cache, none) else elim found [
      | some entry ↦ (next, some (build_enriched sys.unicode trimmed entry))
      | none ↦ (next, some (synthetic_menu sys.unicode trimmed))
    ]
