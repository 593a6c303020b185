-- ===== src/Proxy/ShownTests.antt =====
-- A round over a session whose viewer has a menubar with a menu of one entry.
use noctalia_appmenu.Prelude.{
  ◌≡◌, inl, false, refl, [], ◌∷◌, map, some, arith, pos, if◌then◌else◌, text_eq, codes, ascii,
  starts_with, strip_prefix, strip_suffix, from_secs, none, from_millis,
}
use noctalia_appmenu.Config.{default_config}
use noctalia_appmenu.Atspi.Skip.{should_skip, ttl_for, classify_expensive, resolved_once}
use noctalia_appmenu.Atspi.Cache.{get}
use noctalia_appmenu.Atspi.App.{Bus}
use noctalia_appmenu.Atspi.Menubar.{fetch_menubar_for_pid}
use noctalia_appmenu.Atspi.Tests.{ref, okular_tree}
use noctalia_appmenu.Atspi.SessionTests.{session}
use noctalia_appmenu.Desktop.Tests.{machine}
use noctalia_appmenu.Desktop.Resolve.{join}
use noctalia_appmenu.Proxy.Place.{active_json_path}
use noctalia_appmenu.Proxy.Loop.{Round, walked, round, run_loop}
use noctalia_appmenu.Proxy.Loop.Walks.{Walks}
use noctalia_appmenu.Proxy.Loop.Rests.{blind, run_loop-rests}
use noctalia_appmenu.Proxy.Loop.Shown.{walk_of}
use noctalia_appmenu.Proxy.Tests.{encode, fresh, reading}

abbrev viewer : Bus
viewer = record session {
  world = record okular_tree {
    read_child_count = λ r. some (pos 1);
    get_child_at_index = λ r i.
        if text_eq r.path (codes "/file")
        then some (ref (codes "/file/open"))
        else okular_tree.get_child_at_index r i;
  };
}

abbrev looking : Round
looking = record reading {
  walk = λ title.
      walk_of (fetch_menubar_for_pid ascii (some viewer) 5 42 (some (codes "org.kde.okular")) title)
        5;
}

-- A variable that is set to the empty text counts as set, so the path is relative.
relative_place : active_json_path (λ v. some []) ≡ codes "noctalia-appmenu/active.json"
unfolding active_json_path join starts_with strip_prefix strip_suffix
relative_place = refl

-- A viewer that has no menubar, and two rounds that come later.
abbrev vain : Round
vain = record reading { walk = λ _. walked none (from_millis 20) }

vain-Walks : Walks default_config machine encode vain fresh none (from_millis 20)
unfolding should_skip get
vain-Walks = ((λ e. absurd (ground arith)), refl, refl, refl)

vain-ttl :
    ttl_for
      (classify_expensive (from_millis 20))
      (resolved_once fresh.learned (codes "org.kde.okular"))
    ≡ from_secs 300
unfolding ttl_for classify_expensive resolved_once
vain-ttl = refl

vain-is_cheap : classify_expensive (from_millis 20) ≡ false
unfolding classify_expensive
vain-is_cheap = refl

abbrev later : Round
later = record reading { skip_at = from_secs 100 }

run_loop-rests_example :
    run_loop default_config machine encode
      (round default_config machine encode vain fresh).0
      (reading ∷ later ∷ [])
    ≡ run_loop default_config machine encode
        (round default_config machine encode vain fresh).0
        (map (blind default_config machine encode (codes "org.kde.okular")) (reading ∷ later ∷ []))
run_loop-rests_example =
    run_loop-rests default_config machine encode vain fresh (from_millis 20) (reading ∷ later ∷ [])
      refl vain-Walks refl (rw vain-ttl (omega arith, (omega arith, tt))) (inl vain-is_cheap)
