-- ===== src/Desktop/Fallback/Shape.antt =====
-- The items of a fallback menu: a property of every one of them follows from its kinds of leaves
-- and from its submenus, whose items are numbered.
use mathlib.Core.Path.{subst}
use noctalia_appmenu.Prelude.{
  ℕ, suc, ◌+◌, ◌≡◌, refl, inl, inr, true, Bool-cases, List, [], ◌∷◌, ◌++◌, Any, Option, none, some,
  arith, if◌then◌else◌, is_empty, length, trim, Text, codes, Unicode,
}
use noctalia_appmenu.Menu.Tree.{
  MenuFields, MenuItem, MenuItems, node, nil, cons, of_list, fields, item, Everywhere, EverywhereIn,
}
use noctalia_appmenu.Menu.Synthetic.{
  synthetic_service, niri_leaf, synthetic_separator, synthetic_submenu,
  synthetic_application_submenu, synthetic_window_submenu, pretty_app_label, synthetic_menu,
}
use noctalia_appmenu.Desktop.Entry.{DesktopAction, DesktopEntry}
use noctalia_appmenu.Desktop.Fallback.{
  action_leaf, launch_leaf, separator, leaf_of, action_leaves, launch_items, app_items,
  build_enriched,
}

-- The ids count up from the given one.
abbrev pub IsNumberedFrom : ℕ → MenuItems → Type 0
IsNumberedFrom k nil = Unit
IsNumberedFrom k (cons m ms) = ((fields m).id ≡ k) × IsNumberedFrom (suc k) ms

-- The ids of the children are their positions.
abbrev pub IsNumbered : MenuItem → Type 0
IsNumbered (node f ms) = IsNumberedFrom 0 ms

-- What a property of all items has to hold of: the submenus and the compositor's leaves.
pub record HoldsOfMenus (P : MenuItem → Type 0) : Type 0 where
  pub gap : (idx : ℕ) → P (separator idx)
  pub compositor : (idx : ℕ) (label action : Text) → P (niri_leaf idx label action)
  pub menu :
      (f : MenuFields) (ms : MenuItems)
      → f.service ≡ synthetic_service
      → f.path ≡ codes "niri:noop"
      → IsNumberedFrom 0 ms
      → P (node f ms)

-- What else it has to hold of, where there is an entry: its launch leaf and its actions' leaves.
pub record HoldsOfLaunches (P : MenuItem → Type 0) (entry : DesktopEntry) : Type 0 where
  pub launch : (idx : ℕ) (label icon : Text) → P (launch_leaf idx label entry.id icon)
  pub act :
      (idx : ℕ) (label icon : Text) (a : DesktopAction)
      → Any (λ b. a ≡ b) entry.actions
      → P (action_leaf idx label entry.id a.id icon)

-- The window submenu, as its labels and actions with `none` for a separator.
abbrev window_rows : List (Option (Text × Text))
window_rows =
    some (codes "Close", codes "close-window")
    ∷ some (codes "Toggle Fullscreen", codes "fullscreen-window")
    ∷ some (codes "Toggle Floating", codes "toggle-window-floating")
    ∷ none
    ∷ some (codes "Maximize Column", codes "maximize-column")
    ∷ some (codes "Center Column", codes "center-column")
    ∷ some (codes "Expand Column to Available Width", codes "expand-column-to-available-width")
    ∷ none
    ∷ some (codes "Move to Previous Workspace", codes "move-window-to-workspace-up")
    ∷ some (codes "Move to Next Workspace", codes "move-window-to-workspace-down")
    ∷ some (codes "Move to Monitor Left", codes "move-window-to-monitor-left")
    ∷ some (codes "Move to Monitor Right", codes "move-window-to-monitor-right")
    ∷ []

abbrev submenu_fields : ℕ → Text → MenuFields
submenu_fields id label = record {
  id = id;
  label = label;
  item_type = codes "submenu";
  enabled = true;
  visible = true;
  icon_name = [];
  toggle_type = [];
  toggle_state = 0;
  service = synthetic_service;
  path = codes "niri:noop";
}

abbrev quit : ℕ → Text → MenuItem
quit k pretty = niri_leaf k (codes "Quit " ++ pretty) (codes "close-window")

abbrev rows_from : ℕ → List (Option (Text × Text)) → List MenuItem
rows_from k [] = []
rows_from k (none ∷ ds) = synthetic_separator k ∷ rows_from (suc k) ds
rows_from k (some d ∷ ds) = niri_leaf k d.0 d.1 ∷ rows_from (suc k) ds

module _ (P : MenuItem → Type 0) where
  -- Items with the property, numbered from the given number.
  abbrev Rows : ℕ → List MenuItem → Type 0
  Rows k [] = Unit
  Rows k (m ∷ ms) = ((fields m).id ≡ k) × Everywhere P m × Rows (suc k) ms

  Rows-IsNumberedFrom : (k : ℕ) (ms : List MenuItem) → Rows k ms → IsNumberedFrom k (of_list ms)
  Rows-IsNumberedFrom k [] h = tt
  Rows-IsNumberedFrom k (m ∷ ms) (e, h, hs) = (e, Rows-IsNumberedFrom (suc k) ms hs)

  Rows-EverywhereIn : (k : ℕ) (ms : List MenuItem) → Rows k ms → EverywhereIn P (of_list ms)
  Rows-EverywhereIn k [] h = tt
  Rows-EverywhereIn k (m ∷ ms) (e, h, hs) = (h, Rows-EverywhereIn (suc k) ms hs)

  Rows-append :
      (k j : ℕ) (ms ns : List MenuItem)
      → k + length ms ≡ j
      → Rows k ms
      → Rows j ns
      → Rows k (ms ++ ns)
  Rows-append k j [] ns e h hs = subst (λ x. Rows x ns) (omega (arith, e)) hs
  Rows-append k j (m ∷ ms) ns e (i, h, t) hs =
      (i, h, Rows-append (suc k) j ms ns (omega (arith, e)) t hs)

  module _ (menus : HoldsOfMenus P) where
    -- A submenu of such items.
    Rows-menu :
        (f : MenuFields) (ms : List MenuItem)
        → f.service ≡ synthetic_service
        → f.path ≡ codes "niri:noop"
        → Rows 0 ms
        → Everywhere P (item f ms)
    Rows-menu f ms s p h =
        (menus.menu f (of_list ms) s p (Rows-IsNumberedFrom 0 ms h), Rows-EverywhereIn 0 ms h)

    Rows-niri_leaf :
        (k : ℕ) (label action : Text) (ms : List MenuItem)
        → Rows (suc k) ms
        → Rows k (niri_leaf k label action ∷ ms)
    unfolding niri_leaf
    Rows-niri_leaf k label action ms h = (refl, (menus.compositor k label action, tt), h)

    quit-Rows : (k : ℕ) (pretty : Text) → Rows k (quit k pretty ∷ [])
    quit-Rows k pretty = Rows-niri_leaf k (codes "Quit " ++ pretty) (codes "close-window") [] tt

    Rows-separator : (k : ℕ) (ms : List MenuItem) → Rows (suc k) ms → Rows k (separator k ∷ ms)
    unfolding separator
    Rows-separator k ms h = (refl, (menus.gap k, tt), h)

    rows_from-Rows : (k : ℕ) (ds : List (Option (Text × Text))) → Rows k (rows_from k ds)
    unfolding separator synthetic_separator
    rows_from-Rows k [] = tt
    rows_from-Rows k (none ∷ ds) =
        Rows-separator k (rows_from (suc k) ds) (rows_from-Rows (suc k) ds)
    rows_from-Rows k (some d ∷ ds) =
        Rows-niri_leaf k d.0 d.1 (rows_from (suc k) ds) (rows_from-Rows (suc k) ds)

    window-Everywhere : Everywhere P synthetic_window_submenu
    unfolding synthetic_window_submenu synthetic_submenu
    window-Everywhere =
        Rows-menu (submenu_fields 1 (codes "Window")) (rows_from 0 window_rows) refl refl
          (rows_from-Rows 0 window_rows)

    -- A menu bar of the two submenus.
    bar-Everywhere :
        (f : MenuFields) (app : MenuItem)
        → f.service ≡ synthetic_service
        → f.path ≡ codes "niri:noop"
        → (fields app).id ≡ 0
        → Everywhere P app
        → Everywhere P (item f (app ∷ synthetic_window_submenu ∷ []))
    unfolding synthetic_window_submenu synthetic_submenu
    bar-Everywhere f app s p e h =
        Rows-menu f (app ∷ synthetic_window_submenu ∷ []) s p (e, h, (refl, window-Everywhere, tt))

    pub synthetic_menu-Everywhere :
        (u : Unicode) (app_id : Text) → Everywhere P (synthetic_menu u app_id)
    unfolding synthetic_menu synthetic_application_submenu synthetic_submenu
    synthetic_menu-Everywhere u app_id =
        let pretty = pretty_app_label u app_id in
        bar-Everywhere (submenu_fields 0 pretty) (synthetic_application_submenu pretty) refl refl
          refl
          (Rows-menu (submenu_fields 0 pretty) (quit 0 pretty ∷ []) refl refl (quit-Rows 0 pretty))

    app_items-Rows :
        (pretty : Text) (launches : List MenuItem)
        → Rows 0 launches
        → Rows 0 (app_items pretty launches)
    unfolding app_items
    app_items-Rows pretty [] h = quit-Rows 0 pretty
    app_items-Rows pretty (k ∷ ks) h =
        let n = length (k ∷ ks) in
        Rows-append 0 n (k ∷ ks) (separator n ∷ quit (n + 1) pretty ∷ []) (omega arith) h (
          Rows-separator n (quit (n + 1) pretty ∷ []) (
            subst (λ j. Rows j (quit (n + 1) pretty ∷ [])) (omega arith)
              (quit-Rows (n + 1) pretty)))

    module _ (entry : DesktopEntry) (launches : HoldsOfLaunches P entry) where
      action_leaves-Rows :
          (k : ℕ) (actions : List DesktopAction)
          → ((a : DesktopAction) → Any (λ b. a ≡ b) actions → Any (λ b. a ≡ b) entry.actions)
          → Rows k (action_leaves entry k actions)
      unfolding action_leaves leaf_of action_leaf
      action_leaves-Rows k [] sub = tt
      action_leaves-Rows k (a ∷ rest) sub = (
        refl,
        (launches.act k _ _ a (sub a (inl refl)), tt),
        action_leaves-Rows (suc k) rest (λ b h. sub b (inr h)),
      )

      launch_items-Rows :
          (actions : List DesktopAction)
          → ((a : DesktopAction) → Any (λ b. a ≡ b) actions → Any (λ b. a ≡ b) entry.actions)
          → Rows 0 (launch_items entry actions)
      unfolding launch_items launch_leaf
      launch_items-Rows [] sub = elim (Bool-cases (is_empty (trim entry.exec))) [
        | inl e ↦ rw e tt
        | inr e ↦ rw e (refl, (launches.launch 0 (codes "New Window") entry.icon, tt), tt)
      ]
      launch_items-Rows (a ∷ rest) sub = action_leaves-Rows 0 (a ∷ rest) sub

      pub build_enriched-Everywhere :
          (u : Unicode) (app_id : Text) → Everywhere P (build_enriched u app_id entry)
      unfolding build_enriched synthetic_submenu
      build_enriched-Everywhere u app_id =
          let pretty =
            if is_empty (trim entry.name) then pretty_app_label u app_id else trim entry.name in
          bar-Everywhere (record (submenu_fields 0 pretty) { icon_name = entry.icon })
            (synthetic_submenu 0 pretty (app_items pretty (launch_items entry entry.actions))) refl
            refl refl
            (Rows-menu (submenu_fields 0 pretty)
              (app_items pretty (launch_items entry entry.actions)) refl refl
              (app_items-Rows pretty (launch_items entry entry.actions)
                (launch_items-Rows entry.actions (λ a h. h))))
