-- ===== src/Click/MenuTests.antt =====
-- Clicks on the items of a viewer's menubar, and of the fallback menu that is published in its
-- place.
use noctalia_appmenu.Prelude.{
  ◌≡◌, refl, false, [], ◌∷◌, some, arith, ℕ, text_eq, codes, retain, is_empty, byte_len, trim,
  is_whitespace, none, contains_char,
}
use noctalia_appmenu.Menu.Tree.{MenuItem, item, Everywhere}
use noctalia_appmenu.Menu.Synthetic.{synthetic_service}
use noctalia_appmenu.Atspi.World.{Ref}
use noctalia_appmenu.Atspi.Fetch.{fields_of}
use noctalia_appmenu.Atspi.Tests.{ref, okular_tree, file_menu, walks_bar}
use noctalia_appmenu.Desktop.Tests.{machine, no_memos}
use noctalia_appmenu.Click.Walked.{IsOnBus, IsConnected, IsClickable, fetch_menu_tree-IsClickable}
use noctalia_appmenu.Config.{default_config}
use noctalia_appmenu.Desktop.Entry.{DesktopEntry}
use noctalia_appmenu.Desktop.Resolve.{
  System, resolve, resolve_in, direct, scan_dirs, app_dirs, is_valid_desktop_id,
  is_ascii_alphanumeric,
}
use noctalia_appmenu.Proxy.Write.{payload_of, desktop_fallback}
use noctalia_appmenu.Proxy.Write.Laws.{last_of}
use noctalia_appmenu.Proxy.Loop.{
  round, usable, resolve_menu, publish_props, eager_write, eager_choice, after_walk,
}
use noctalia_appmenu.Atspi.Skip.{should_skip}
use noctalia_appmenu.Atspi.Cache.{get}
use noctalia_appmenu.Prelude.Str.Split.{split, split_once}
use noctalia_appmenu.Proxy.Loop.Fallback.{at_choice}
use noctalia_appmenu.Proxy.Tests.{encode, fresh, reading, unreadable_round}
use noctalia_appmenu.Click.Published.{fallback_rows, round-fallback_rows}
use noctalia_appmenu.Click.Rows.{rows}
use noctalia_appmenu.Click.Tests.{gone}

okular_tree-child :
    (r c : Ref) (i : ℕ)
    → okular_tree.get_child_at_index r i ≡ some c
    → text_eq c.service synthetic_service ≡ false
unfolding text_eq
okular_tree-child r c i e = ground arith

okular_tree-IsOnBus : IsOnBus okular_tree (ref (codes "/bar"))
unfolding text_eq
okular_tree-IsOnBus = record { at_root = refl; at_child = okular_tree-child }

gone-IsConnected : IsConnected gone
gone-IsConnected = record {
  connects = refl;
  has_path = λ r. refl;
  has_accessible = λ r. refl;
  has_action = λ r. refl;
}

fetch_menu_tree-IsClickable_example :
    Everywhere
      (IsClickable gone machine no_memos 5 okular_tree (ref (codes "/bar")) 7 80)
      (item (fields_of okular_tree (ref (codes "/bar"))) (file_menu ∷ []))
fetch_menu_tree-IsClickable_example =
    fetch_menu_tree-IsClickable gone machine no_memos 5 okular_tree (ref (codes "/bar")) 7 80 0
      (item (fields_of okular_tree (ref (codes "/bar"))) (file_menu ∷ [])) okular_tree-IsOnBus
      gone-IsConnected walks_bar

-- A machine with no application directory.
abbrev bare_machine : System
bare_machine = record machine {
  files = record { is_file = λ _. false; read_to_string = λ _. none; read_dir = λ _. none };
}

unwalked :
    usable default_config bare_machine encode
      (at_choice default_config bare_machine encode unreadable_round fresh).1
    ≡ none
unfolding should_skip get usable resolve_menu publish_props eager_write after_walk
unwalked = refl

unresolved :
    (resolve bare_machine
      (at_choice default_config bare_machine encode unreadable_round fresh).0.resolved
      6
      (trim (codes "org.kde.okular"))).1
    ≡ none
unfolding resolve resolve_in direct scan_dirs app_dirs trim is_whitespace should_skip get
    eager_choice resolve_menu publish_props eager_write after_walk split split_once byte_len
    is_valid_desktop_id is_ascii_alphanumeric text_eq retain
unresolved = refl

plain :
    (e : DesktopEntry)
    → (resolve bare_machine
        (at_choice default_config bare_machine encode unreadable_round fresh).0.resolved
        6
        (trim (codes "org.kde.okular"))).1
      ≡ some e
    → contains_char b':' e.id ≡ false
plain e h = absurd (cc unresolved)

named : is_empty (trim (codes "org.kde.okular")) ≡ false
unfolding trim is_whitespace
named = refl

round-fallback_rows_example :
    (m : MenuItem) × (rows gone machine no_memos 5 m
      ≡ fallback_rows gone machine no_memos 5 bare_machine.unicode
          (trim (codes "org.kde.okular"))
          (resolve bare_machine
            (at_choice default_config bare_machine encode unreadable_round fresh).0.resolved
            6
            (trim (codes "org.kde.okular"))).1)
    × ((round default_config bare_machine encode unreadable_round fresh).0.writer.file
        ≡ some (encode (payload_of reading.snapshot (some m) desktop_fallback)))
    × (last_of (round default_config bare_machine encode unreadable_round fresh).0.writer.pushed
        ≡ some (encode (payload_of reading.snapshot (some m) desktop_fallback)))
round-fallback_rows_example =
    round-fallback_rows gone machine no_memos 5 default_config bare_machine encode unreadable_round
      fresh refl refl refl tt (λ e. absurd (ground arith)) refl named unwalked plain
