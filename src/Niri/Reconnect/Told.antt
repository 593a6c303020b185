-- ===== src/Niri/Reconnect/Told.antt =====
-- What the niri task of bridge/src/niri.rs publishes, line by line of the session that it is in.
use noctalia_appmenu.Prelude.{
  ◌*◌, ◌≡◌, refl, ◌⊎◌, inl, inr, Bool, true, false, List, [], ◌∷◌, Option, none, some, arith, All,
  Any, All-append, min, find, is_empty, trim, if◌then◌else◌, Bool-cases, Option-cases, ℕ, Text,
  Duration,
}
use mathlib.Core.Path.{subst}
use noctalia_appmenu.Focus.{FocusEvent, FocusOp, emit, defocus, no_change, unknown_window}
use noctalia_appmenu.Niri.Detect.{
  NiriIpc, Window, Event, window_focus_changed, windows_changed, window_opened_or_changed, other,
  detect_focus_change, emit_for, focus_event,
}
use noctalia_appmenu.Niri.Detect.Laws.{
  IsOfWindow, detect_focus_change-IsOfWindow, detect_focus_change-defocus_iff,
}
use noctalia_appmenu.Niri.Stream.{
  line, eof, failed, Round, published_by, on_line, drive_events_with,
}
use noctalia_appmenu.Niri.Reconnect.{
  Reply, Session, done, error, open_still, Published, next_backoff, backoff_floor, backoff_max,
}
use noctalia_appmenu.Niri.Reconnect.Laws.{IsOpened, run_once-cases}
use noctalia_appmenu.Niri.Reconnect.Task.{Visit, visit, resume, run_task_from, run_task}

All-sub {ℓ} :
    {A : Type ℓ} (P Q : A → Type 0) → ((x : A) → P x → Q x) → (xs : List A) → All P xs → All Q xs
All-sub P Q f [] h = tt
All-sub P Q f (x ∷ xs) (h, hs) = (f x h, All-sub P Q f xs hs)

-- The lines that a session reads before it ends.
abbrev pub lines_of : List Round → List Text
lines_of [] = []
lines_of ((false, line buf) ∷ rounds) = buf ∷ lines_of rounds
lines_of ((false, eof) ∷ rounds) = []
lines_of ((false, failed) ∷ rounds) = []
lines_of ((true, r) ∷ rounds) = []

module _ (ipc : NiriIpc) where
  -- The event puts the focus on the window with the id.
  abbrev pub Focuses : Event ipc.Other → ℕ → Type 0
  Focuses (window_focus_changed none) id = ⊥
  Focuses (window_focus_changed (some i)) id = i ≡ id
  Focuses (windows_changed windows) id =
      (w : Window) × (find (λ v. v.is_focused) windows ≡ some w) × (w.id ≡ id)
  Focuses (window_opened_or_changed w) id = (w.is_focused ≡ true) × (w.id ≡ id)
  Focuses (other o) id = ⊥

  -- What is published on an event: a defocus, on the event that no window has the focus, or the
  -- window that the event focuses, as it stands in the state after the event.
  abbrev pub Tells : Event ipc.Other → ipc.State → Option FocusEvent → Type 0
  Tells event after none = event ≡ window_focus_changed none
  Tells event after (some evt) = Focuses event evt.winid × IsOfWindow ipc after evt

  -- The state after a line: a blank one and one that does not parse leave it as it is.
  abbrev pub replay : ipc.State → Text → ipc.State
  replay s buf =
      if is_empty (trim buf)
      then s
      else elim (ipc.parse_event (trim buf)) [ none ↦ s | some event ↦ ipc.apply s event ]

  -- One of the lines holds an event that tells it, in the state that this line and those before it
  -- lead to from the given one.
  abbrev pub Told : ipc.State → List Text → Option FocusEvent → Type 0
  Told s [] out = ⊥
  Told s (buf ∷ rest) out =
      ((is_empty (trim buf) ≡ false)
        × ((event : Event ipc.Other) × (ipc.parse_event (trim buf) ≡ some event)
            × Tells event (ipc.apply s event) out))
      ⊎ Told (replay s buf) rest out

  emit_for-id :
      (id : ℕ) (s : ipc.State) (evt : FocusEvent) → emit_for ipc id s ≡ emit evt → id ≡ evt.winid
  unfolding emit_for focus_event
  emit_for-id id s evt e = elim (Option-cases (ipc.window s id)) [
    | inl q ↦ absurd (ground arith)
    | inr (w, q) ↦ elim (Option-cases w.pid) [
      | inl p ↦ absurd (ground arith)
      | inr (pid, p) ↦ ground arith
    ]
  ]

  detect-Focuses :
      (event : Event ipc.Other) (s : ipc.State) (evt : FocusEvent)
      → detect_focus_change ipc event s ≡ emit evt
      → Focuses event evt.winid
  unfolding detect_focus_change
  detect-Focuses (window_focus_changed none) s evt e = absurd (cc)
  detect-Focuses (window_focus_changed (some id)) s evt e = emit_for-id id s evt e
  detect-Focuses (windows_changed ws) s evt e = elim (Option-cases (find (λ w. w.is_focused) ws)) [
    | inl q ↦ absurd (ground arith)
    | inr (w, q) ↦ (w, q, emit_for-id w.id s evt (ground arith))
  ]
  detect-Focuses (window_opened_or_changed w) s evt e = elim (Bool-cases w.is_focused) [
    | inl q ↦ (q, emit_for-id w.id s evt (ground arith))
    | inr q ↦ absurd (ground arith)
  ]
  detect-Focuses (other o) s evt e = absurd (cc)

  published_by-Tells :
      (event : Event ipc.Other) (s : ipc.State) (op : FocusOp)
      → detect_focus_change ipc event s ≡ op
      → All (Tells event s) (published_by op)
  unfolding published_by
  published_by-Tells event s (emit evt) e =
      ((detect-Focuses event s evt e, detect_focus_change-IsOfWindow ipc event s evt e), tt)
  published_by-Tells event s defocus e = ((detect_focus_change-defocus_iff ipc event s).0 e, tt)
  published_by-Tells event s no_change e = tt
  published_by-Tells event s (unknown_window id) e = tt

  on_line-Told :
      (s : ipc.State) (buf : Text) (rest : List Text)
      → ((on_line ipc s buf).0 ≡ replay s buf) × All (Told s (buf ∷ rest)) (on_line ipc s buf).1
  unfolding on_line
  on_line-Told s buf rest = elim (Bool-cases (is_empty (trim buf))) [
    | inl h ↦ rw h (refl, tt)
    | inr h ↦ elim (Option-cases (ipc.parse_event (trim buf))) [
      | inl q ↦ rw (h, q) (refl, tt)
      | inr (event, q) ↦
          rw (h, q)
            (
              refl,
              All-sub (Tells event (ipc.apply s event)) (Told s (buf ∷ rest))
                  (λ out k. inl (h, (event, q, k)))
                  (published_by (detect_focus_change ipc event (ipc.apply s event)))
                  (published_by-Tells event (ipc.apply s event) _ refl),
            )
    ]
  ]

  drive-Told :
      (s : ipc.State) (rounds : List Round)
      → All (Told s (lines_of rounds)) (drive_events_with ipc s rounds).0
  unfolding drive_events_with
  drive-Told s [] = tt
  drive-Told s ((true, r) ∷ rounds) = tt
  drive-Told s ((false, eof) ∷ rounds) = tt
  drive-Told s ((false, failed) ∷ rounds) = tt
  drive-Told s ((false, line buf) ∷ rounds) =
      let (same, now) = on_line-Told s buf (lines_of rounds) in
      let next = (on_line ipc s buf).0 in
      let later : All (Told next (lines_of rounds)) (drive_events_with ipc next rounds).0 =
        drive-Told next rounds in
      All-append (Told s (buf ∷ lines_of rounds)) (on_line ipc s buf).1
        (drive_events_with ipc next rounds).0 now
        (All-sub (Told next (lines_of rounds)) (Told s (buf ∷ lines_of rounds))
          (λ out k. inr (subst (λ t. Told t (lines_of rounds) out) same k))
          (drive_events_with ipc next rounds).0 later)

module _ (ipc : NiriIpc) (parse_reply : Text → Option Reply) where
  -- The session is opened and acknowledged, and one of its own lines tells it.
  abbrev pub IsToldIn : Option FocusEvent → Visit → Type 0
  IsToldIn out v =
      (v.is_closed ≡ false)
      × (v.has_path ≡ true)
      × IsOpened v.handshake
      × Told ipc ipc.default (lines_of v.rounds) out

  visit-Told :
      (v : Visit) → v.is_closed ≡ false → All (λ out. IsToldIn out v) (visit ipc parse_reply v).0
  visit-Told v c = elim (run_once-cases ipc parse_reply v.has_path v.handshake v.rounds) [
    | inl e ↦ rw e tt
    | inr (buf, p, o, a, h, e) ↦ rw e (
        All-sub (Told ipc ipc.default (lines_of v.rounds)) (λ out. IsToldIn out v)
          (λ out k. (c, p, o, k)) (drive_events_with ipc ipc.default v.rounds).0
          (drive-Told ipc ipc.default v.rounds))
  ]

  resume-All :
      (P : Option FocusEvent → Type 0) (is_closed : Bool) (session : Published × Session)
      (wait : Duration) (later : Published × (List Duration × Bool))
      → (is_closed ≡ false → All P session.0)
      → All P later.0
      → All P (resume ipc parse_reply is_closed session wait later).0
  resume-All P true session wait later h k = tt
  resume-All P false (out, done) wait later h k = h refl
  resume-All P false (out, open_still) wait later h k = h refl
  resume-All P false (out, error) wait (later, (waits, returned)) h k =
      All-append P out later (h refl) k

  run_task_from-Told :
      (b : Duration) (vs : List Visit)
      → All (λ out. Any (IsToldIn out) vs) (run_task_from ipc parse_reply b vs).0
  unfolding run_task_from
  run_task_from-Told b [] = tt
  run_task_from-Told b (v ∷ vs) =
      let wait = next_backoff b v.lasted in
      let rest = run_task_from ipc parse_reply (min (wait * 2) backoff_max) vs in
      resume-All (λ out. Any (IsToldIn out) (v ∷ vs)) v.is_closed (visit ipc parse_reply v) wait
        rest
        (λ c.
          All-sub (λ out. IsToldIn out v) (λ out. Any (IsToldIn out) (v ∷ vs)) (λ out k. inl k)
            (visit ipc parse_reply v).0 (visit-Told v c))
        (All-sub (λ out. Any (IsToldIn out) vs) (λ out. Any (IsToldIn out) (v ∷ vs))
          (λ out k. inr k) rest.0 (run_task_from-Told (min (wait * 2) backoff_max) vs))

  -- All that the niri task publishes, across any number of sessions and reconnects, is told by a
  -- line of one of its sessions, one that was opened: it is a defocus, where that line's event says
  -- that no window has the focus, or the window that the event focuses, with the process, app-id
  -- and title that it has in the state which this session's own lines, up to that one, lead to from
  -- the empty state.
  pub run_task-IsToldIn :
      (vs : List Visit) → All (λ out. Any (IsToldIn out) vs) (run_task ipc parse_reply vs).0
  unfolding run_task
  run_task-IsToldIn vs = run_task_from-Told backoff_floor vs
