-- ===== src/Menu/Synthetic.antt =====
-- The menu that bridge/src/atspi.rs makes up for an application with no menubar: `niri_leaf`,
-- `synthetic_separator`, `synthetic_submenu`, the two submenus and `synthetic_menu`.
use noctalia_appmenu.Prelude.{
  ℕ, true, false, List, [], ◌∷◌, ◌++◌, some, none, if◌then◌else◌, contains_char, text_eq, trim,
  Text, codes, Unicode,
}
use noctalia_appmenu.Prelude.Str.Split.{rsplit_once}
use noctalia_appmenu.Menu.Tree.{MenuItem, item}

-- `SYNTHETIC_SERVICE`
abbrev pub synthetic_service : Text
synthetic_service = codes "::synthetic"

unfoldable pub niri_action_icon : Text → Text
unfolding text_eq
niri_action_icon action =
    if text_eq action (codes "close-window")
    then codes "window-close"
    else if text_eq action (codes "fullscreen-window")
    then codes "view-fullscreen"
    else if text_eq action (codes "move-window-to-workspace-down")
    then codes "go-down"
    else if text_eq action (codes "move-window-to-workspace-up")
    then codes "go-up"
    else if text_eq action (codes "move-window-to-monitor-left")
    then codes "go-previous"
    else if text_eq action (codes "move-window-to-monitor-right")
    then codes "go-next"
    else []

unfoldable pub niri_leaf : ℕ → Text → Text → MenuItem
unfolding niri_action_icon
niri_leaf id label action =
    item
      (record {
        id = id;
        label = label;
        item_type = codes "standard";
        enabled = true;
        visible = true;
        icon_name = niri_action_icon action;
        toggle_type = [];
        toggle_state = 0;
        service = synthetic_service;
        path = codes "niri:" ++ action;
      })
      []

unfoldable pub synthetic_separator : ℕ → MenuItem
synthetic_separator id =
    item
      (record {
        id = id;
        label = [];
        item_type = codes "separator";
        enabled = false;
        visible = true;
        icon_name = [];
        toggle_type = [];
        toggle_state = 0;
        service = [];
        path = [];
      })
      []

unfoldable pub synthetic_submenu : ℕ → Text → List MenuItem → MenuItem
synthetic_submenu id label = item (record {
  id = id;
  label = label;
  item_type = codes "submenu";
  enabled = true;
  visible = true;
  icon_name = [];
  toggle_type = [];
  toggle_state = 0;
  service = synthetic_service;
  path = codes "niri:noop";
})

unfoldable pub synthetic_application_submenu : Text → MenuItem
unfolding synthetic_submenu niri_leaf
synthetic_application_submenu pretty =
    synthetic_submenu 0 pretty (niri_leaf 0 (codes "Quit " ++ pretty) (codes "close-window") ∷ [])

unfoldable pub synthetic_window_submenu : MenuItem
unfolding synthetic_submenu niri_leaf synthetic_separator
synthetic_window_submenu = synthetic_submenu 1 (codes "Window") (
    niri_leaf 0 (codes "Close") (codes "close-window")
    ∷ niri_leaf 1 (codes "Toggle Fullscreen") (codes "fullscreen-window")
    ∷ niri_leaf 2 (codes "Toggle Floating") (codes "toggle-window-floating")
    ∷ synthetic_separator 3
    ∷ niri_leaf 4 (codes "Maximize Column") (codes "maximize-column")
    ∷ niri_leaf 5 (codes "Center Column") (codes "center-column")
    ∷ niri_leaf 6 (codes "Expand Column to Available Width")
        (codes "expand-column-to-available-width")
    ∷ synthetic_separator 7
    ∷ niri_leaf 8 (codes "Move to Previous Workspace") (codes "move-window-to-workspace-up")
    ∷ niri_leaf 9 (codes "Move to Next Workspace") (codes "move-window-to-workspace-down")
    ∷ niri_leaf 10 (codes "Move to Monitor Left") (codes "move-window-to-monitor-left")
    ∷ niri_leaf 11 (codes "Move to Monitor Right") (codes "move-window-to-monitor-right")
    ∷ [])

-- `to_uppercase` of the first character, in front of the rest; no character gives `App`.
capitalise : Unicode → Text → Text
capitalise u [] = codes "App"
capitalise u (c ∷ s) = u.to_uppercase c ++ s

unfoldable pub pretty_app_label : Unicode → Text → Text
unfolding capitalise rsplit_once trim
pretty_app_label u app_id =
    let stripped : Text = elim (rsplit_once b'.' app_id) [
      | some p ↦ if contains_char b'.' p.0 then p.1 else app_id
      | none ↦ app_id
    ] in
    capitalise u (trim stripped)

unfoldable pub synthetic_menu : Unicode → Text → MenuItem
unfolding pretty_app_label synthetic_application_submenu synthetic_window_submenu
synthetic_menu u app_id =
    let pretty = pretty_app_label u app_id in
    item
      (record {
        id = 0;
        label = pretty;
        item_type = codes "submenu";
        enabled = true;
        visible = true;
        icon_name = [];
        toggle_type = [];
        toggle_state = 0;
        service = synthetic_service;
        path = codes "niri:noop";
      })
      (synthetic_application_submenu pretty ∷ synthetic_window_submenu ∷ [])
