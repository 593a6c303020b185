-- ===== src/Niri/Detect.antt =====
-- `detect_focus_change`, `emit_for` and `focus_event`. The state that `niri_ipc` keeps is a
-- parameter: of it the code only looks windows up, and applies events.
pub mod Laws
use noctalia_appmenu.Prelude.{
  ℕ, ℤ, as_u32, Bool, true, false, List, [], ◌∷◌, Option, none, some, find, Text, if◌then◌else◌,
}
use mathlib.Core.Option
use noctalia_appmenu.Focus.{FocusEvent, FocusOp, emit, defocus, no_change, unknown_window}

-- The fields of `niri_ipc::Window` that the code reads.
pub record Window : Type 0 where
  pub id : ℕ
  pub app_id : Option Text
  pub title : Option Text
  pub pid : Option ℤ
  pub is_focused : Bool

-- `niri_ipc::Event` as the code tells it apart; `other` is every variant that it does not name.
pub data Event (Other : Type 0) : Type 0 where
  window_focus_changed : Option ℕ → Event Other
  windows_changed : List Window → Event Other
  window_opened_or_changed : Window → Event Other
  other : Other → Event Other

-- `niri_ipc`: its other events, its `EventStreamState`, and the parser of an event line.
pub record NiriIpc : Type 1 where
  pub Other : Type 0
  pub State : Type 0
  pub default : State
  pub apply : State → Event Other → State
  pub window : State → ℕ → Option Window
  pub parse_event : Text → Option (Event Other)

unfoldable pub focus_event : ℕ → ℤ → Window → FocusEvent
focus_event id pid window = record {
  winid = id;
  pid = as_u32 pid;
  app_id = Option.get_or window.app_id [];
  title = Option.get_or window.title [];
}

module _ (ipc : NiriIpc) where
  unfoldable pub emit_for : ℕ → ipc.State → FocusOp
  emit_for id state = elim (ipc.window state id) [
    | none ↦ unknown_window id
    | some window ↦ elim window.pid [
      | none ↦ no_change
      | some pid ↦ emit (focus_event id pid window)
    ]
  ]

  unfoldable pub detect_focus_change : Event ipc.Other → ipc.State → FocusOp
  detect_focus_change (window_focus_changed none) state = defocus
  detect_focus_change (window_focus_changed (some id)) state = emit_for id state
  detect_focus_change (windows_changed windows) state = elim (find (λ w. w.is_focused) windows) [
    | none ↦ no_change
    | some w ↦ emit_for w.id state
  ]
  detect_focus_change (window_opened_or_changed window) state =
      if window.is_focused then emit_for window.id state else no_change
  detect_focus_change (other o) state = no_change
