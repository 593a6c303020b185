-- ===== src/Proxy/Tests.antt =====
-- Rounds of the loop for a document viewer with a menubar.
use noctalia_appmenu.Prelude.{
  ◌≡◌, refl, true, false, [], ◌∷◌, map, ◌++◌, Option, none, some, arith, Text, codes, from_secs,
  from_millis, trim, is_whitespace,
}
use noctalia_appmenu.Prelude.Map.{empty_map, mutex}
use noctalia_appmenu.Menu.Tree.{MenuItem, Everywhere, item, blank}
use noctalia_appmenu.Desktop.Fallback.Shape.{IsNumbered}
use noctalia_appmenu.Active.Snapshot.{empty as no_snapshot}
use noctalia_appmenu.Config.{default_config}
use noctalia_appmenu.Atspi.Skip.{unlearned, should_skip, record_negative}
use noctalia_appmenu.Atspi.Cache.{get}
use noctalia_appmenu.Proxy.Write.{
  MenuSource, empty, desktop_fallback, Payload, payload_of, Writer, Disk,
}
use noctalia_appmenu.Proxy.Write.Laws.{last_of}
use noctalia_appmenu.Proxy.Loop.{
  Bridge, walked, walk_failed, focus_changed, refresh_kick, Round, round, run_loop, start, usable,
  resolve_menu, publish_props, eager_write, after_walk,
}
use noctalia_appmenu.Proxy.Loop.Spec.{memory, spec_run, run_loop-start}
use noctalia_appmenu.Proxy.Loop.Truth.{IsTrue, round-IsTrue}
use noctalia_appmenu.Proxy.Loop.Fallback.{IsFallback, at_choice, round-IsFallback}
use noctalia_appmenu.Proxy.Loop.Pushes.{end_of, changes, run_requests, run_loop-pushed}
use noctalia_appmenu.Proxy.Loop.Walks.{Walks}
use noctalia_appmenu.Proxy.Loop.Cached.{unlooking, run_loop-cached}
use noctalia_appmenu.Desktop.Tests.{machine, no_memos}

abbrev pub encode : Payload → Text
encode p = p.app_id ++ (b'|' ∷ p.source)

abbrev unwritten : Writer
unwritten = record { last_body = none; file = none; pushed = [] }

abbrev pub fresh : Bridge
fresh = record {
  learned = unlearned;
  menus = mutex empty_map;
  resolved = no_memos;
  writer = unwritten;
  props = record { bus_name = []; object_path = []; app_id = []; title = [] };
}

abbrev menubar : MenuItem
menubar = item blank (item blank (item blank [] ∷ []) ∷ [])

abbrev pub works : Disk
works = record { writes = true; left = none }

abbrev pub reading : Round
reading = record {
  wake = focus_changed;
  snapshot = record {
    focus_pid = 42;
    focus_winid = 7;
    app_id = codes "org.kde.okular";
    title = codes "paper.pdf";
    menu_service = [];
    menu_path = none;
  };
  eager_at = 1;
  eager_resolve_at = 2;
  skip_at = 3;
  cache_at = 4;
  learned_at = 5;
  final_resolve_at = 6;
  eager_disk = works;
  final_disk = works;
  signals_sent = true;
  walk = λ _. walked (some menubar) (from_millis 20);
  restarted = false;
}

round-IsTrue_example :
    (menu : Option MenuItem) × (source : MenuSource) × IsTrue default_config machine encode reading
      fresh source menu
    × ((round default_config machine encode reading fresh).0.writer.file
        ≡ some (encode (payload_of reading.snapshot menu source)))
    × (last_of (round default_config machine encode reading fresh).0.writer.pushed
        ≡ some (encode (payload_of reading.snapshot menu source)))
round-IsTrue_example = round-IsTrue default_config machine encode reading fresh refl refl refl tt

walks : Walks default_config machine encode reading fresh (some menubar) (from_millis 20)
unfolding should_skip get
walks = ((λ e. absurd (ground arith)), refl, refl, refl)

-- The refresh that a stale click asks for.
abbrev refresh : Round
refresh = record reading { wake = refresh_kick; cache_at = from_secs 10 }

-- Another window, and then the first one again.
abbrev elsewhere : Round
elsewhere = record reading { snapshot = record reading.snapshot { focus_winid = 9 } }

run_loop-cached_example :
    run_loop default_config machine encode
      (round default_config machine encode reading fresh).0
      (elsewhere ∷ refresh ∷ [])
    ≡ run_loop default_config machine encode (round default_config machine encode reading fresh).0 (
        map
          (unlooking default_config machine encode (codes "org.kde.okular") 42 7)
          (elsewhere ∷ refresh ∷ []))
run_loop-cached_example =
    run_loop-cached default_config machine encode reading fresh (some menubar) (from_millis 20)
      (elsewhere ∷ refresh ∷ []) refl walks refl (omega arith, (omega arith, tt))

run_loop-start_example :
    map
      (λ t. t.writer.file)
      (run_loop default_config machine encode
        (start default_config machine encode works fresh)
        (reading ∷ refresh ∷ []))
    ≡ map
        (λ p. some (encode p))
        (spec_run default_config machine encode (memory fresh) (reading ∷ refresh ∷ []))
run_loop-start_example =
    run_loop-start default_config machine encode works fresh (reading ∷ refresh ∷ [])
      ((refl, refl, refl), ((refl, refl, refl), tt))

-- The tree cannot be walked.
abbrev pub unreadable_round : Round
unreadable_round = record reading { walk = λ _. walk_failed }

pub nothing_usable :
    usable default_config machine encode
      (at_choice default_config machine encode unreadable_round fresh).1
    ≡ none
unfolding should_skip get usable resolve_menu publish_props eager_write after_walk
nothing_usable = refl

round-IsFallback_example :
    (m : MenuItem) × IsFallback machine
      (at_choice default_config machine encode unreadable_round fresh).0.resolved
      6
      (trim (codes "org.kde.okular"))
      m
    × Everywhere IsNumbered m
    × ((round default_config machine encode unreadable_round fresh).0.writer.file
        ≡ some (encode (payload_of reading.snapshot (some m) desktop_fallback)))
    × (last_of (round default_config machine encode unreadable_round fresh).0.writer.pushed
        ≡ some (encode (payload_of reading.snapshot (some m) desktop_fallback)))
unfolding trim is_whitespace
round-IsFallback_example =
    round-IsFallback default_config machine encode unreadable_round fresh refl refl refl tt
      (λ e. absurd (ground arith)) refl refl nothing_usable

run_loop-pushed_example :
    (end_of (start default_config machine encode works fresh) (
      run_loop default_config machine encode
        (start default_config machine encode works fresh)
        (reading ∷ refresh ∷ []))).writer.pushed
    ≡ []
      ++ changes none (
          (false, encode (payload_of no_snapshot none empty))
          ∷ run_requests default_config machine encode (memory fresh) (reading ∷ refresh ∷ []))
run_loop-pushed_example =
    run_loop-pushed default_config machine encode works fresh (reading ∷ refresh ∷ []) refl
      ((refl, refl, refl), ((refl, refl, refl), tt))

-- A viewer whose walk found no menubar, at the instant 0, after 1 ms.
abbrev bare : Bridge
bare = record fresh {
  learned = record_negative unlearned 0 (codes "org.kde.okular") (from_millis 1);
}
