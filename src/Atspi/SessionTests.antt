-- ===== src/Atspi/SessionTests.antt =====
-- From a focused process to its menubar, and the choice among two windows.
use noctalia_appmenu.Prelude.{
  ◌≤◌, ◌<◌, ◌≡◌, ◌≢◌, ◌⊎◌, refl, inl, inr, ◌==◌, true, [], ◌∷◌, Option, none, some, arith, pos, Any,
  length, if◌then◌else◌, text_eq, trim, is_whitespace, Text, codes, ascii, retain,
}
use noctalia_appmenu.Menu.Tree.{MenuItem, item}
use noctalia_appmenu.Atspi.World.{ok, Ref, World, child_refs}
use noctalia_appmenu.Atspi.Fetch.{fields_of, fetch_menu_tree}
use noctalia_appmenu.Atspi.Find.{find_menubar}
use noctalia_appmenu.Atspi.Matching.{choose_frame}
use noctalia_appmenu.Atspi.App.{
  Bus, find_app_for_pid, after_scan, scan_pids, resolve_focused_frame, list_frames, own_children,
  title_hit,
}
use noctalia_appmenu.Atspi.App.Laws.{Corroborated}
use noctalia_appmenu.Atspi.App.Frames.{IsTitled, resolve_focused_frame-IsTitled}
use noctalia_appmenu.Atspi.Menubar.{
  fetch_budget, fetch_menubar_for_pid, fetch_menubar_for_pid_inner,
}
use noctalia_appmenu.Atspi.Menubar.Laws.{IsWalkOf, fetch_menubar_for_pid-IsWalkOf}
use noctalia_appmenu.Atspi.Tests.{ref, okular_tree}

abbrev pub session : Bus
session = record {
  world = okular_tree;
  process_id = λ s. if text_eq s (codes ":1.7") then some 42 else none;
  has_dbus = true;
}

abbrev pub app : Ref
app = ref (codes "/app")

abbrev file_menu : MenuItem
file_menu = item (fields_of okular_tree (ref (codes "/file"))) []

abbrev bar : MenuItem
bar = item (fields_of okular_tree (ref (codes "/bar"))) (file_menu ∷ [])

fetches_bar : fetch_menubar_for_pid ascii (some session) 5 42 none none ≡ ok (some bar)
unfolding fetch_menubar_for_pid fetch_menubar_for_pid_inner find_menubar fetch_menu_tree
    find_app_for_pid after_scan scan_pids resolve_focused_frame list_frames own_children title_hit
    child_refs choose_frame retain text_eq
fetches_bar = refl

fetch_menubar_for_pid-IsWalkOf_example :
    (5 ≤ fetch_budget)
    × ((b : Bus) × (some session ≡ some b)
        × ((a : Ref) × IsWalkOf b.world a bar
            × ((b.process_id a.service ≡ some 42)
                ⊎ ((h : Text) × (Path (Option Text) none (some h))
                    × Corroborated ascii b.world h a.service))))
fetch_menubar_for_pid-IsWalkOf_example =
    fetch_menubar_for_pid-IsWalkOf ascii (some session) 5 42 none none bar fetches_bar

-- Two frames, with their paths as names.
abbrev two_windows : World
two_windows = record okular_tree {
  get_child_at_index = λ r i. some (if i == 0 then ref (codes "/one") else ref (codes "/two"));
  read_child_count = λ r. some (pos 2);
}

frames_two :
    list_frames two_windows app ≡ (codes "/one", codes "/one") ∷ (codes "/two", codes "/two") ∷ []
unfolding list_frames own_children child_refs retain text_eq
frames_two = refl

two_frames : 1 < length (list_frames two_windows app)
two_frames = rw frames_two (omega arith)

two_ne_nil : trim (codes "/two") ≢ []
unfolding trim is_whitespace
two_ne_nil e = ground arith

has_title : Any (IsTitled (codes "/two")) (list_frames two_windows app)
has_title = rw frames_two (inr (inl (refl, two_ne_nil)))

resolve_focused_frame-IsTitled_example :
    (f : Text × Text) × (resolve_focused_frame two_windows app (some (codes "/two"))
      ≡ some (record app { path = f.0 }))
    × Any (λ g. (g ≡ f) × IsTitled (codes "/two") g) (list_frames two_windows app)
resolve_focused_frame-IsTitled_example =
    resolve_focused_frame-IsTitled two_windows app (codes "/two") two_frames has_title

no_hit : title_hit (list_frames two_windows app) none ≡ none
unfolding title_hit
no_hit = refl
