-- ===== src/Click/Tests.antt =====
-- Clicks on an accessible that is gone, on one that expands, and on a leaf that launches.
use noctalia_appmenu.Prelude.{
  ◌≡◌, refl, true, false, [], ◌∷◌, ◌++◌, none, some, if◌then◌else◌, is_empty, text_eq, codes, trim,
  is_whitespace, byte_len, contains_char, ascii,
}
use noctalia_appmenu.Menu.Tree.{MenuItem, item, children, Everywhere}
use noctalia_appmenu.Atspi.World.{ok, Ref, World}
use noctalia_appmenu.Atspi.Fetch.{fetch_menu_tree, fields_of}
use noctalia_appmenu.Desktop.Entry.{DesktopEntry}
use noctalia_appmenu.Desktop.Resolve.{
  ResolveCache, resolve, is_valid_desktop_id, is_ascii_alphanumeric,
}
use noctalia_appmenu.Prelude.Map.{mutex}
use noctalia_appmenu.Desktop.Fallback.{build_enriched, fallback_menu}
use noctalia_appmenu.Desktop.Fallback.Shape.{IsNumbered}
use noctalia_appmenu.Click.Menus.{fallback_menu-IsNumbered}
use noctalia_appmenu.Click.Rows.{
  app_label, rows, idle_row, launch_rows, window_rows, quit_row, build_enriched-rows,
}
use noctalia_appmenu.Click.Effect.{probed, acted, slept, done, Replies}
use noctalia_appmenu.Click.Launch.{dispatch_synthetic}
use noctalia_appmenu.Click.Launch.Laws.{DoesOnly, dispatch_synthetic-DoesOnly}
use noctalia_appmenu.Click.Action.{
  expand_realize_delay, expand_and_fetch, probe_then, expand, collapse,
}
use noctalia_appmenu.Click.Command.Laws.{expand_and_fetch-done}
use noctalia_appmenu.Desktop.Tests.{machine}

abbrev bare : World
bare = record {
  builds = λ _. true;
  get_child_at_index = λ _ _. none;
  get_role = λ _. none;
  get_state = λ _. none;
  read_name = λ _. none;
  read_child_count = λ _. none;
}

abbrev pub willing : Replies
willing = record {
  niri_connects = true;
  focuses = λ _. some true;
  has_session = true;
  connects = true;
  has_path = λ _. true;
  has_accessible = λ _. true;
  has_action = λ _. true;
  probe_answers = λ _. true;
  do_action = λ _. some true;
  niri_succeeds = λ _. true;
  spawns = λ _. true;
  realized = bare;
}

abbrev pub gone : Replies
gone = record willing { probe_answers = λ _. false }

abbrev target : Ref
target = record { service = codes ":1.7"; path = codes "/file" }

abbrev kitty_entry : DesktopEntry
kitty_entry = record {
  id = codes "kitty";
  name = codes "Kitty";
  exec = codes "kitty %U";
  icon = [];
  startup_wm_class = none;
  actions = [];
}

abbrev one_memo : ResolveCache
one_memo = mutex (λ k.
    if text_eq k (codes "kitty") then some (record { entry = some kitty_entry; at = 0 }) else none)

dispatch_synthetic-DoesOnly_example :
    DoesOnly willing machine one_memo 5
      (codes "xdg:kitty")
      (dispatch_synthetic willing machine one_memo 5 (codes "xdg:kitty")).0
dispatch_synthetic-DoesOnly_example =
    dispatch_synthetic-DoesOnly willing machine one_memo 5 (codes "xdg:kitty")

kitty_has_no_colon : contains_char b':' kitty_entry.id ≡ false
kitty_has_no_colon = refl

build_enriched-rows_example :
    rows willing machine one_memo 5 (build_enriched ascii (codes "kitty") kitty_entry)
    ≡ idle_row willing machine one_memo 5 (app_label ascii (codes "kitty") kitty_entry)
      ∷ idle_row willing machine one_memo 5 (app_label ascii (codes "kitty") kitty_entry)
      ∷ ((launch_rows willing machine one_memo 5 kitty_entry kitty_entry.actions
            ++ (quit_row willing machine one_memo 5 (app_label ascii (codes "kitty") kitty_entry)
                ∷ []))
          ++ window_rows willing machine one_memo 5)
build_enriched-rows_example =
    build_enriched-rows willing machine one_memo 5 kitty_entry kitty_has_no_colon ascii
      (codes "kitty")

kitty_menu :
    (fallback_menu machine one_memo 5 (codes "kitty")).1
    ≡ some (build_enriched ascii (codes "kitty") kitty_entry)
unfolding fallback_menu resolve trim is_whitespace text_eq is_valid_desktop_id byte_len
    is_ascii_alphanumeric
kitty_menu = refl

fallback_menu-IsNumbered_example :
    Everywhere IsNumbered (build_enriched ascii (codes "kitty") kitty_entry)
fallback_menu-IsNumbered_example =
    fallback_menu-IsNumbered machine one_memo 5 (codes "kitty")
      (build_enriched ascii (codes "kitty") kitty_entry) kitty_menu

abbrev leaf : MenuItem
leaf = item (fields_of bare target) []

expands_leaf : (expand_and_fetch willing (codes ":1.7") (codes "/file")).1 ≡ done leaf
unfolding expand_and_fetch probe_then expand collapse fetch_menu_tree text_eq
expands_leaf = refl

expand_and_fetch-done_example :
    (fetch_menu_tree bare target 0 ≡ ok leaf)
    × ((expand_and_fetch willing (codes ":1.7") (codes "/file")).0
        ≡ probed target
          ∷ acted target
          ∷ slept expand_realize_delay
          ∷ (if is_empty (children leaf) then [] else acted target ∷ []))
expand_and_fetch-done_example =
    expand_and_fetch-done willing (codes ":1.7") (codes "/file") leaf expands_leaf
