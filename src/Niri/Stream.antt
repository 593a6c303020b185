-- ===== src/Niri/Stream.antt =====
-- `drive_events_with`: the loop over the lines of niri's event stream.
pub mod Laws
use noctalia_appmenu.Prelude.{
  ℕ, Bool, true, false, List, [], ◌∷◌, ◌++◌, Option, none, some, is_empty, trim, Text,
  if◌then◌else◌,
}
use noctalia_appmenu.Focus.{FocusEvent, FocusOp, emit, defocus, no_change, unknown_window}
use noctalia_appmenu.Niri.Detect.{NiriIpc, Event, detect_focus_change}

-- What `read_line` gives: a line, the end of the stream (`n == 0`), or an error.
pub data Read : Type 0 where
  line : Text → Read
  eof : Read
  failed : Read

-- One round of the loop: whether the channel is closed at its head, and what the read gives.
abbrev pub Round : Type 0
Round = Bool × Read

-- How the loop ends: `Ok(())`, one of the two errors, or it still waits for a line.
pub data Ended : Type 0 where
  closed : Ended
  stream_closed : Ended
  read_error : Ended
  waiting : Ended

-- What a decision publishes.
unfoldable pub published_by : FocusOp → List (Option FocusEvent)
published_by (emit evt) = some evt ∷ []
published_by defocus = none ∷ []
published_by (unknown_window id) = []
published_by no_change = []

module _ (ipc : NiriIpc) where
  -- One line: the new state, and what it publishes. Blank lines and lines that do not parse are
  -- skipped.
  unfoldable pub on_line : ipc.State → Text → ipc.State × List (Option FocusEvent)
  unfolding published_by
  on_line state buf =
      if is_empty (trim buf) then (state, []) else elim (ipc.parse_event (trim buf)) [
        | none ↦ (state, [])
        | some event ↦
            let next = ipc.apply state event in
            (next, published_by (detect_focus_change ipc event next))
      ]

  -- The loop, and all that it publishes, in order.
  unfoldable pub drive_events_with : ipc.State → List Round → List (Option FocusEvent) × Ended
  drive_events_with state [] = ([], waiting)
  drive_events_with state ((true, r) ∷ rounds) = ([], closed)
  drive_events_with state ((false, eof) ∷ rounds) = ([], stream_closed)
  drive_events_with state ((false, failed) ∷ rounds) = ([], read_error)
  drive_events_with state ((false, line buf) ∷ rounds) =
      let (next, out) = on_line state buf in
      let (rest, end) = drive_events_with next rounds in (out ++ rest, end)
