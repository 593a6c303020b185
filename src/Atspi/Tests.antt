-- ===== src/Atspi/Tests.antt =====
-- A session with one application, whose menubar has one menu, and what the walk and its memories
-- make of it.
use noctalia_appmenu.Prelude.{
  ◌-◌, ◌≡◌, ◌≢◌, refl, true, false, List, [], ◌∷◌, none, some, arith, ℤ, pos, negsuc, All, Any, ◌↔◌,
  find, ltb, if◌then◌else◌, text_eq, Text, codes, from_secs, from_millis,
}
use noctalia_appmenu.Menu.Tree.{MenuItem, item}
use noctalia_appmenu.Atspi.World.{ok, panic, Ref, World}
use noctalia_appmenu.Menu.Flatten.Leaves.{leaves}
use noctalia_appmenu.Atspi.Fetch.{fields_of, fetch_menu_tree, menu_bar, max_fetch_depth}
use noctalia_appmenu.Atspi.Fetch.Complete.{shown, fetch_menu_tree-leaves}
use noctalia_appmenu.Atspi.Fetch.Panics.{IsNegative, reached, fetch_menu_tree-panic}
use noctalia_appmenu.Atspi.Find.{find_menubar, is_menubar}
use noctalia_appmenu.Atspi.Find.Laws.{preorder, find_menubar-preorder}
use noctalia_appmenu.Atspi.App.{registry}
use noctalia_appmenu.Atspi.Skip.{unlearned, should_skip, record_negative, resolved_once}
use noctalia_appmenu.Atspi.Skip.Laws.{
  Event, walked_without, walked_with, bus_restarted, learn_all, IsBy, should_skip-learn_all,
  should_skip-record_negative,
}
use noctalia_appmenu.Atspi.A11y.{A11yBus, is_a11y_enabled}
use noctalia_appmenu.Atspi.Client.{Shared, Use, connects, poll, handed_out}
use noctalia_appmenu.Atspi.Client.Laws.{IsOpenedIn, handed_out-IsOpenedIn}

abbrev pub ref : Text → Ref
ref path = record { service = codes ":1.7"; path = path }

-- The registry has the application "/app", with the child "/bar", a menubar, which has the child
-- "/file", a menu; "/broken" reports a negative count.
abbrev count_of : Text → ℤ
count_of p =
    if text_eq p (codes "/broken")
    then negsuc 0
    else if text_eq p registry.path
    then pos 1
    else if text_eq p (codes "/app")
    then pos 1
    else if text_eq p (codes "/bar")
    then pos 1
    else pos 0

abbrev pub okular_tree : World
okular_tree = record {
  builds = λ _. true;
  get_child_at_index = λ r i.
      if text_eq r.path registry.path
      then some (ref (codes "/app"))
      else if text_eq r.path (codes "/app")
      then some (ref (codes "/bar"))
      else if text_eq r.path (codes "/bar")
      then some (ref (codes "/file"))
      else none;
  get_role = λ r. if text_eq r.path (codes "/bar") then some menu_bar else some 33;
  get_state = λ _. some (256 ∷ []);
  read_name = λ r. some r.path;
  read_child_count = λ r. some (count_of r.path);
}

abbrev pub file_menu : MenuItem
file_menu = item (fields_of okular_tree (ref (codes "/file"))) []

pub walks_bar :
    fetch_menu_tree okular_tree (ref (codes "/bar")) 0
    ≡ ok (item (fields_of okular_tree (ref (codes "/bar"))) (file_menu ∷ []))
unfolding fetch_menu_tree text_eq
walks_bar = refl

fetch_menu_tree-leaves_example :
    leaves (item (fields_of okular_tree (ref (codes "/bar"))) (file_menu ∷ []))
    ≡ shown okular_tree (max_fetch_depth - 0) (ref (codes "/bar"))
fetch_menu_tree-leaves_example =
    fetch_menu_tree-leaves okular_tree (ref (codes "/bar")) 0
      (item (fields_of okular_tree (ref (codes "/bar"))) (file_menu ∷ [])) walks_bar

fetch_menu_tree-panic_example :
    (fetch_menu_tree okular_tree (ref (codes "/broken")) 0 ≡ panic)
    ↔ Any (IsNegative okular_tree) (reached okular_tree 3 (ref (codes "/broken")))
fetch_menu_tree-panic_example = fetch_menu_tree-panic okular_tree (ref (codes "/broken")) 0

find_menubar-preorder_example :
    find_menubar okular_tree (ref (codes "/app")) 0
    ≡ ok (find (is_menubar okular_tree) (preorder okular_tree 8 (ref (codes "/app"))))
find_menubar-preorder_example = find_menubar-preorder okular_tree (ref (codes "/app")) all_build
  where
    all_build : (s : Ref) → okular_tree.builds s ≡ true
    all_build s = refl

abbrev kitty : Text
kitty = codes "kitty"

abbrev history : List Event
history =
    walked_without 5 kitty (from_secs 2)
    ∷ walked_with kitty
    ∷ bus_restarted
    ∷ walked_without 9 kitty 1
    ∷ []

history-IsBy : All (IsBy 9) history
history-IsBy = (omega arith, (tt, (tt, (omega arith, tt))))

should_skip-learn_all_example :
    should_skip (learn_all unlearned history) (from_secs 1801) kitty ≡ false
should_skip-learn_all_example =
    should_skip-learn_all 9 (from_secs 1801) history kitty history-IsBy (omega arith)

should_skip-record_negative_example :
    should_skip (record_negative unlearned 5 kitty (from_secs 2)) (from_secs 1700) kitty ≡ (
      if text_eq kitty kitty
      then ltb (from_secs 1700 - 5) (
          if ltb (from_secs 2) (from_millis 750)
          then from_secs 300
          else if resolved_once unlearned kitty
          then from_secs 30
          else from_secs 1800)
      else should_skip unlearned (from_secs 1700) kitty)
should_skip-record_negative_example =
    should_skip-record_negative unlearned 5 (from_secs 1700) kitty kitty (from_secs 2) refl

-- A walk connects, the bus restarts, and two walks connect again.
abbrev connected : Shared
connected = record { inner = some 1; learned = unlearned; enabled = [] }

abbrev down : A11yBus
down = record {
  has_session = true;
  has_bus = true;
  sets = true;
  gets = none;
  address = none;
  opens = λ a. none;
}

abbrev restarted : A11yBus
restarted = record down { address = some (codes "unix:path=/run/a11y"); opens = λ a. some 2 }

abbrev reconnects : List Use
reconnects = connects down ∷ connects restarted ∷ connects down ∷ []

probe_failed : is_a11y_enabled down ≢ some true
unfolding is_a11y_enabled
probe_failed e = absurd (cc)

handed_out-IsOpenedIn_example :
    All (IsOpenedIn reconnects) (handed_out (poll connected down restarted) reconnects)
handed_out-IsOpenedIn_example =
    handed_out-IsOpenedIn connected down restarted reconnects probe_failed
