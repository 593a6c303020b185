-- ===== src/Niri/Stream/Laws.antt =====
-- What the event loop publishes, and how it ends.
use noctalia_appmenu.Prelude.{
  ◌≡◌, refl, inl, inr, Bool, true, false, List, [], ◌∷◌, Option, none, some, arith, All, is_empty,
  trim, retain, Bool-cases, Option-cases, Text, if◌then◌else◌,
}
use noctalia_appmenu.Focus.{FocusEvent, FocusOp, emit, defocus, no_change, unknown_window}
use noctalia_appmenu.Niri.Detect.{NiriIpc, Event, detect_focus_change}
use noctalia_appmenu.Niri.Detect.Laws.{IsOfWindow, detect_focus_change-IsOfWindow}
use noctalia_appmenu.Niri.Stream.{
  line, eof, failed, Round, Ended, closed, stream_closed, read_error, waiting, published_by,
  on_line, drive_events_with,
}

-- A line with an event in it.
unfoldable pub is_event : NiriIpc → Text → Bool
is_event ipc buf =
    if is_empty (trim buf)
    then false
    else elim (ipc.parse_event (trim buf)) [ none ↦ false | some _ ↦ true ]

-- A round that is not a mere junk line: the end of the stream, an error, an event, or a closed
-- channel.
unfoldable pub matters : NiriIpc → Round → Bool
matters ipc (true, r) = true
matters ipc (false, line buf) = is_event ipc buf
matters ipc (false, eof) = true
matters ipc (false, failed) = true

on_line-junk :
    (ipc : NiriIpc) (state : ipc.State) (buf : Text)
    → is_event ipc buf ≡ false
    → on_line ipc state buf ≡ (state, [])
unfolding is_event on_line
on_line-junk ipc state buf h = ground arith

-- Blank lines and lines that the parser does not know change nothing: without them the loop
-- publishes the same and ends in the same way.
pub drive_events_with-retain :
    (ipc : NiriIpc) (state : ipc.State) (rounds : List Round)
    → drive_events_with ipc state (retain (matters ipc) rounds) ≡ drive_events_with ipc state rounds
unfolding drive_events_with retain matters
drive_events_with-retain ipc state [] = refl
drive_events_with-retain ipc state ((true, r) ∷ rounds) = refl
drive_events_with-retain ipc state ((false, eof) ∷ rounds) = refl
drive_events_with-retain ipc state ((false, failed) ∷ rounds) = refl
drive_events_with-retain ipc state ((false, line buf) ∷ rounds) =
    elim (Bool-cases (is_event ipc buf)) [
      | inl h ↦
          rw (h, drive_events_with, drive_events_with-retain ipc (on_line ipc state buf).0 rounds)
            refl
      | inr h ↦ rw (h, on_line-junk ipc state buf h) (drive_events_with-retain ipc state rounds)
    ]

-- A state that some events of the stream lead to.
pub data Applied (ipc : NiriIpc) (start : ipc.State) : ipc.State → Type 0 where
  at_start : Applied ipc start start
  applied :
      {s t : ipc.State} (buf : Text) (event : Event ipc.Other)
      → Applied ipc start s
      → ipc.parse_event (trim buf) ≡ some event
      → t ≡ ipc.apply s event
      → Applied ipc start t

-- What is published is a defocus, or a window of a state that the stream's events lead to.
abbrev pub IsGenuine : (ipc : NiriIpc) → ipc.State → Option FocusEvent → Type 0
IsGenuine ipc start none = Unit
IsGenuine ipc start (some evt) = (s : ipc.State) × Applied ipc start s × IsOfWindow ipc s evt

published_by-IsGenuine :
    (ipc : NiriIpc) (start s : ipc.State) (event : Event ipc.Other) (op : FocusOp)
    → Applied ipc start s
    → detect_focus_change ipc event s ≡ op
    → All (IsGenuine ipc start) (published_by op)
unfolding published_by
published_by-IsGenuine ipc start s event (emit evt) a e =
    ((s, a, detect_focus_change-IsOfWindow ipc event s evt e), tt)
published_by-IsGenuine ipc start s event defocus a e = (tt, tt)
published_by-IsGenuine ipc start s event no_change a e = tt
published_by-IsGenuine ipc start s event (unknown_window id) a e = tt

pub on_line-IsGenuine :
    (ipc : NiriIpc) (start s : ipc.State) (buf : Text)
    → Applied ipc start s
    → Applied ipc start (on_line ipc s buf).0 × All (IsGenuine ipc start) (on_line ipc s buf).1
unfolding on_line
on_line-IsGenuine ipc start s buf a = elim (Bool-cases (is_empty (trim buf))) [
  | inl h ↦ rw h (a, tt)
  | inr h ↦ elim (Option-cases (ipc.parse_event (trim buf))) [
    | inl q ↦ rw (h, q) (a, tt)
    | inr (event, q) ↦
        let next : Applied ipc start (ipc.apply s event) = applied buf event a q refl in
        rw (h, q) (next, published_by-IsGenuine ipc start (ipc.apply s event) event _ next refl)
  ]
]

-- The first round at which the loop stops, and with what.
unfoldable pub end_of : List Round → Ended
end_of [] = waiting
end_of ((true, r) ∷ rounds) = closed
end_of ((false, line buf) ∷ rounds) = end_of rounds
end_of ((false, eof) ∷ rounds) = stream_closed
end_of ((false, failed) ∷ rounds) = read_error

-- The loop ends at the first round with a closed channel, an end of the stream or a read error,
-- and with that result: no line, whatever it holds, ends it.
pub drive_events_with-end_of :
    (ipc : NiriIpc) (state : ipc.State) (rounds : List Round)
    → (drive_events_with ipc state rounds).1 ≡ end_of rounds
unfolding drive_events_with end_of
drive_events_with-end_of ipc state [] = refl
drive_events_with-end_of ipc state ((true, r) ∷ rounds) = refl
drive_events_with-end_of ipc state ((false, eof) ∷ rounds) = refl
drive_events_with-end_of ipc state ((false, failed) ∷ rounds) = refl
drive_events_with-end_of ipc state ((false, line buf) ∷ rounds) =
    drive_events_with-end_of ipc (on_line ipc state buf).0 rounds
