-- ===== src/Niri/Tests.antt =====
-- The event loop and the reconnects on a small niri: a state that lists its windows, and lines that
-- are single words.
use noctalia_appmenu.Prelude.{
  ◌<◌, ◌≡◌, ◌==◌, true, false, List, [], ◌∷◌, map, Option, none, some, find, All, arith, pos,
  if◌then◌else◌, text_eq, trim, retain, Text, codes, Duration, from_secs, Any, refl, is_whitespace,
}
use noctalia_appmenu.Focus.{FocusEvent}
use noctalia_appmenu.Niri.Detect.{Window, Event, window_focus_changed, windows_changed, NiriIpc}
use noctalia_appmenu.Niri.Stream.{line, eof, Round, drive_events_with}
use noctalia_appmenu.Niri.Stream.Laws.{
  matters, end_of, drive_events_with-retain, drive_events_with-end_of,
}
use noctalia_appmenu.Niri.Reconnect.{
  run, Reply, handled, rejected, Handshake, run_once, run_once_at, connected_reset_threshold,
}
use noctalia_appmenu.Niri.Reconnect.Told.{IsToldIn, run_task-IsToldIn}
use noctalia_appmenu.Niri.Reconnect.Task.{
  Visit, run_task, run_task_from, IsGone, run_task-InRange, run_task-IsGone,
}
use noctalia_appmenu.Niri.Reconnect.Laws.{InRange, failed_after, doubling, run-doubling}

abbrev okular : Window
okular = record {
  id = 7;
  app_id = some (codes "org.kde.okular");
  title = some (codes "paper.pdf");
  pid = some (pos 42);
  is_focused = true;
}

abbrev apply_event : List Window → Event Unit → List Window
apply_event ws (windows_changed next) = next
apply_event ws _ = ws

abbrev pub small_niri : NiriIpc
small_niri = record {
  Other = Unit;
  State = List Window;
  default = [];
  apply = apply_event;
  window = λ ws id. find (λ w. w.id == id) ws;
  parse_event = λ t.
      if text_eq t (codes "windows")
      then some (windows_changed (okular ∷ []))
      else if text_eq t (codes "none")
      then some (window_focus_changed none)
      else none;
}

abbrev pub okular_focused : FocusEvent
okular_focused = record {
  winid = 7;
  pid = 42;
  app_id = codes "org.kde.okular";
  title = codes "paper.pdf";
}

abbrev lines_read : List Round
lines_read =
    (false, line (codes "windows\n"))
    ∷ (false, line (codes "\n"))
    ∷ (false, line (codes "none\n"))
    ∷ (false, eof)
    ∷ []

drive_events_with-retain_example :
    drive_events_with small_niri [] (retain (matters small_niri) lines_read)
    ≡ drive_events_with small_niri [] lines_read
drive_events_with-retain_example = drive_events_with-retain small_niri [] lines_read

drive_events_with-end_of_example :
    (drive_events_with small_niri [] lines_read).1 ≡ end_of lines_read
drive_events_with-end_of_example = drive_events_with-end_of small_niri [] lines_read

abbrev short_sessions : List Duration
short_sessions = from_secs 1 ∷ from_secs 2 ∷ from_secs 29 ∷ []

short_sessions-short : All (λ d. d < connected_reset_threshold) short_sessions
short_sessions-short = (omega arith, (omega arith, (omega arith, tt)))

run-doubling_example : (run (map failed_after short_sessions)).0 ≡ doubling 0 short_sessions
run-doubling_example = run-doubling short_sessions short_sessions-short

abbrev opened : Handshake
opened = record {
  connects = true;
  serialises = true;
  writes = true;
  shuts = true;
  ack = line (codes "ok\n");
}

abbrev parse_ok : Text → Option Reply
parse_ok t = if text_eq t (codes "ok") then some handled else some rejected

-- A session whose stream ends after a second, and then a closed channel.
abbrev visits : List Visit
visits =
    record {
      is_closed = false;
      has_path = true;
      handshake = opened;
      rounds = lines_read;
      lasted = from_secs 1;
    }
    ∷ record { is_closed = true; has_path = true; handshake = opened; rounds = []; lasted = 0 }
    ∷ []

run_task-IsToldIn_example :
    All
      (λ out. Any (IsToldIn small_niri parse_ok out) visits)
      (run_task small_niri parse_ok visits).0
run_task-IsToldIn_example = run_task-IsToldIn small_niri parse_ok visits

run_task-InRange_example : All InRange (run_task small_niri parse_ok visits).1.0
run_task-InRange_example = run_task-InRange small_niri parse_ok visits

visits-returned : (run_task small_niri parse_ok visits).1.1 ≡ true
unfolding run_task run_task_from run_once run_once_at text_eq trim is_whitespace drive_events_with
visits-returned = refl

run_task-IsGone_example : Any (IsGone small_niri parse_ok) visits
run_task-IsGone_example = run_task-IsGone small_niri parse_ok visits visits-returned
