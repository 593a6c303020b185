-- ===== src/Click/Rows.antt =====
-- What a click on each item of a fallback menu does: `do_action` of bridge/src/atspi.rs on the
-- coordinates that `build_enriched` of bridge/src/desktop.rs and `synthetic_menu` give the items.
use noctalia_appmenu.Prelude.{
  ℕ, suc, ◌≡◌, refl, sym, ap, ◌∙◌, ◌+◌, length, List, [], ◌∷◌, ◌++◌, map, if◌then◌else◌, is_empty,
  contains_char, false, trim, text_eq, Text, codes, Unicode, Instant, inl, inr, Bool-cases,
}
use mathlib.Core.List.{append_assoc}
use noctalia_appmenu.Prelude.Str.Split.{split_once}
use noctalia_appmenu.Menu.Tree.{MenuItem, MenuItems, MenuFields, node, nil, cons, of_list}
use noctalia_appmenu.Menu.Synthetic.{
  synthetic_service, niri_leaf, synthetic_separator, synthetic_submenu,
  synthetic_application_submenu, synthetic_window_submenu, pretty_app_label, synthetic_menu,
}
use noctalia_appmenu.Desktop.Entry.{DesktopAction, DesktopEntry}
use noctalia_appmenu.Desktop.Resolve.{System, ResolveCache}
use noctalia_appmenu.Desktop.Fallback.{
  action_leaf, launch_leaf, separator, leaf_of, action_leaves, launch_items, app_items,
  build_enriched,
}
use noctalia_appmenu.Click.Effect.{done, Ran, Replies}
use noctalia_appmenu.Click.Launch.{
  launch_app, launch_action, dispatch_niri_action, dispatch_to, dispatch_synthetic,
}
use noctalia_appmenu.Click.Launch.Laws.{dispatch_synthetic-leaf}
use noctalia_appmenu.Click.Menus.{noop-runs}
use noctalia_appmenu.Click.Action.{do_action}

-- The label of an item and what a click on it does.
abbrev pub Row : Type 0
Row = Text × Ran (Unit {0})

-- The window submenu's labels and actions of the compositor.
abbrev pub window_actions : List (Text × Text)
window_actions =
    (codes "Close", codes "close-window")
    ∷ (codes "Toggle Fullscreen", codes "fullscreen-window")
    ∷ (codes "Toggle Floating", codes "toggle-window-floating")
    ∷ (codes "Maximize Column", codes "maximize-column")
    ∷ (codes "Center Column", codes "center-column")
    ∷ (codes "Expand Column to Available Width", codes "expand-column-to-available-width")
    ∷ (codes "Move to Previous Workspace", codes "move-window-to-workspace-up")
    ∷ (codes "Move to Next Workspace", codes "move-window-to-workspace-down")
    ∷ (codes "Move to Monitor Left", codes "move-window-to-monitor-left")
    ∷ (codes "Move to Monitor Right", codes "move-window-to-monitor-right")
    ∷ []

-- The label of an entry's application submenu.
abbrev pub app_label : Unicode → Text → DesktopEntry → Text
app_label u app_id entry =
    if is_empty (trim entry.name) then pretty_app_label u app_id else trim entry.name

module _ (re : Replies) (sys : System) (cache : ResolveCache) (now : Instant) where
  -- A separator cannot be clicked.
  abbrev row_of : MenuFields → List Row → List Row
  row_of f rest =
      if text_eq f.item_type (codes "separator")
      then rest
      else (f.label, do_action re sys cache now f.service f.path) ∷ rest

  -- The rows of all items of a tree, each before those of its children.
  abbrev mutual
    pub rows : MenuItem → List Row
    rows (node f ms) = row_of f (rows_in ms)

    pub rows_in : MenuItems → List Row
    rows_in nil = []
    rows_in (cons m ms) = rows m ++ rows_in ms

  abbrev pub compositor_row : Text → Text → Row
  compositor_row label action = (label, dispatch_niri_action re sys cache now action)

  abbrev pub idle_row : Text → Row
  idle_row label = (label, ([], done tt))

  abbrev pub action_row : DesktopEntry → DesktopAction → Row
  action_row e a = (
    if is_empty (trim a.name) then a.id else trim a.name,
    launch_action re sys cache now e.id a.id,
  )

  -- The launches of an entry: its declared actions, or, where it declares none, its command.
  abbrev pub launch_rows : DesktopEntry → List DesktopAction → List Row
  launch_rows e [] =
      if is_empty (trim e.exec)
      then []
      else (codes "New Window", launch_app re sys cache now e.id) ∷ []
  launch_rows e (a ∷ as_) = map (action_row e) (a ∷ as_)

  abbrev pub window_rows : List Row
  window_rows = idle_row (codes "Window") ∷ map (λ d. compositor_row d.0 d.1) window_actions

  abbrev pub quit_row : Text → Row
  quit_row label = compositor_row (codes "Quit " ++ label) (codes "close-window")

  do_action-synthetic :
      (path : Text)
      → do_action re sys cache now synthetic_service path ≡ dispatch_synthetic re sys cache now path
  unfolding do_action text_eq
  do_action-synthetic path = refl

  rows_in-append :
      (ms ns : List MenuItem)
      → rows_in (of_list (ms ++ ns)) ≡ rows_in (of_list ms) ++ rows_in (of_list ns)
  rows_in-append [] ns = refl
  rows_in-append (m ∷ ms) ns =
      ap (λ x. rows m ++ x) (rows_in-append ms ns)
      ∙ sym (append_assoc (rows m) (rows_in (of_list ms)) (rows_in (of_list ns)))

  rows-niri_leaf :
      (idx : ℕ) (label action : Text)
      → rows (niri_leaf idx label action) ≡ compositor_row label action ∷ []
  unfolding niri_leaf text_eq
  rows-niri_leaf idx label action =
      ap (λ x. (label, x) ∷ [])
        (do_action-synthetic (codes "niri:" ++ action)
          ∙ (dispatch_synthetic-leaf re sys cache now idx label [] action [] refl).2)

  do_action-noop : do_action re sys cache now synthetic_service (codes "niri:noop") ≡ ([], done tt)
  do_action-noop = do_action-synthetic (codes "niri:noop") ∙ noop-runs re sys cache now

  window-rows : rows synthetic_window_submenu ≡ window_rows
  unfolding synthetic_window_submenu synthetic_submenu synthetic_separator niri_leaf text_eq
      do_action dispatch_synthetic dispatch_to dispatch_niri_action split_once
  window-rows = refl

  quit-rows :
      (k : ℕ) (label : Text)
      → rows (niri_leaf k (codes "Quit " ++ label) (codes "close-window")) ≡ quit_row label ∷ []
  quit-rows k label = rows-niri_leaf k (codes "Quit " ++ label) (codes "close-window")

  app_items-rows :
      (label : Text) (ms : List MenuItem)
      → rows_in (of_list (app_items label ms)) ≡ rows_in (of_list ms) ++ (quit_row label ∷ [])
  unfolding app_items separator text_eq
  app_items-rows label [] = ap (λ x. x ++ []) (quit-rows 0 label)
  app_items-rows label (m ∷ ms) =
      let n = length (m ∷ ms) in
      rows_in-append (m ∷ ms)
        (separator n ∷ niri_leaf (n + 1) (codes "Quit " ++ label) (codes "close-window") ∷ [])
      ∙ ap (λ x. rows_in (of_list (m ∷ ms)) ++ (x ++ [])) (quit-rows (n + 1) label)

  module _ (e : DesktopEntry) (plain : contains_char b':' e.id ≡ false) where
    action_leaves-rows :
        (k : ℕ) (actions : List DesktopAction)
        → rows_in (of_list (action_leaves e k actions)) ≡ map (action_row e) actions
    unfolding action_leaves leaf_of action_leaf text_eq
    action_leaves-rows k [] = refl
    action_leaves-rows k (a ∷ rest) =
        let label = if is_empty (trim a.name) then a.id else trim a.name in
        let clicked = (dispatch_synthetic-leaf re sys cache now k label e.id a.id [] plain).1 in
        ap (λ x. (label, x) ∷ rows_in (of_list (action_leaves e (suc k) rest)))
          (do_action-synthetic (codes "xdg-action:" ++ (e.id ++ b':' ∷ a.id)) ∙ clicked)
        ∙ ap (λ x. action_row e a ∷ x) (action_leaves-rows (suc k) rest)

    launch_items-rows :
        (actions : List DesktopAction)
        → rows_in (of_list (launch_items e actions)) ≡ launch_rows e actions
    unfolding launch_items launch_leaf text_eq
    launch_items-rows [] = elim (Bool-cases (is_empty (trim e.exec))) [
      | inl blank ↦ rw blank refl
      | inr there ↦
          let clicked =
            (dispatch_synthetic-leaf re sys cache now 0 (codes "New Window") e.id [] [] plain).0 in
          rw there (
            ap (λ x. (codes "New Window", x) ∷ [])
              (do_action-synthetic (codes "xdg:" ++ e.id) ∙ clicked))
    ]
    launch_items-rows (a ∷ rest) = action_leaves-rows 0 (a ∷ rest)

    -- What a click does, for all items of the menu of an entry whose id has no colon, in their
    -- order: nothing on the menu and its two submenus; on each declared action its launch, or,
    -- where none is declared and the command is not blank, on "New Window" the launch of this very
    -- entry; the compositor's close on "Quit"; and on the ten items of the window submenu the
    -- compositor's action of each. Separators cannot be clicked.
    pub build_enriched-rows :
        (u : Unicode) (app_id : Text)
        → rows (build_enriched u app_id e)
          ≡ idle_row (app_label u app_id e)
            ∷ idle_row (app_label u app_id e)
            ∷ ((launch_rows e e.actions ++ (quit_row (app_label u app_id e) ∷ [])) ++ window_rows)
    unfolding build_enriched synthetic_submenu text_eq
    build_enriched-rows u app_id =
        let label = app_label u app_id e in
        rw
          (
            app_items-rows label (launch_items e e.actions),
            launch_items-rows e.actions,
            window-rows,
            do_action-noop,
          )
          refl

  -- And for all items of the minimal menu.
  pub synthetic_menu-rows :
      (u : Unicode) (app_id : Text)
      → rows (synthetic_menu u app_id)
        ≡ idle_row (pretty_app_label u app_id)
          ∷ idle_row (pretty_app_label u app_id)
          ∷ quit_row (pretty_app_label u app_id)
          ∷ window_rows
  unfolding synthetic_menu synthetic_application_submenu synthetic_submenu synthetic_window_submenu
      synthetic_separator niri_leaf text_eq do_action dispatch_synthetic dispatch_to
      dispatch_niri_action split_once
  synthetic_menu-rows u app_id = refl
