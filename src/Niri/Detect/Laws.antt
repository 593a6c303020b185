-- ===== src/Niri/Detect/Laws.antt =====
-- Every published focus names a window that niri's state holds.
use noctalia_appmenu.Prelude.{
  ℕ, ℤ, as_u32, ◌≡◌, refl, ◌↔◌, ◌≢◌, inl, inr, [], none, some, arith, find, Option-cases,
  Bool-cases,
}
use mathlib.Core.Option
use noctalia_appmenu.Focus.{FocusEvent, emit, defocus}
use noctalia_appmenu.Niri.Detect.{
  Window, Event, window_focus_changed, windows_changed, window_opened_or_changed, other, NiriIpc,
  emit_for, detect_focus_change, focus_event,
}

-- The event is about a window of the state, with a process, and carries that window's data.
abbrev pub IsOfWindow : (ipc : NiriIpc) → ipc.State → FocusEvent → Type 0
IsOfWindow ipc state evt =
    (w : Window) × (ipc.window state evt.winid ≡ some w)
    × ((pid : ℤ) × (w.pid ≡ some pid) × (evt.pid ≡ as_u32 pid))
    × (evt.app_id ≡ Option.get_or w.app_id [])
    × (evt.title ≡ Option.get_or w.title [])

emit_for-IsOfWindow :
    (ipc : NiriIpc) (id : ℕ) (state : ipc.State) (evt : FocusEvent)
    → emit_for ipc id state ≡ emit evt
    → IsOfWindow ipc state evt
unfolding emit_for focus_event
emit_for-IsOfWindow ipc id state evt e = elim (Option-cases (ipc.window state id)) [
  | inl q ↦ absurd (ground arith)
  | inr (w, q) ↦ elim (Option-cases w.pid) [
    | inl p ↦ absurd (ground arith)
    | inr (pid, p) ↦ (w, ground arith, (pid, p, ground arith), ground arith, ground arith)
  ]
]

-- What is emitted is a window of niri's state, by its id, with its process, app-id and title.
pub detect_focus_change-IsOfWindow :
    (ipc : NiriIpc) (event : Event ipc.Other) (state : ipc.State) (evt : FocusEvent)
    → detect_focus_change ipc event state ≡ emit evt
    → IsOfWindow ipc state evt
unfolding detect_focus_change
detect_focus_change-IsOfWindow ipc (window_focus_changed none) state evt e = absurd (cc)
detect_focus_change-IsOfWindow ipc (window_focus_changed (some id)) state evt e =
    emit_for-IsOfWindow ipc id state evt e
detect_focus_change-IsOfWindow ipc (windows_changed ws) state evt e =
    elim (Option-cases (find (λ w. w.is_focused) ws)) [
      | inl q ↦ absurd (ground arith)
      | inr (w, q) ↦ emit_for-IsOfWindow ipc w.id state evt (ground arith)
    ]
detect_focus_change-IsOfWindow ipc (window_opened_or_changed w) state evt e =
    elim (Bool-cases w.is_focused) [
      | inl q ↦ emit_for-IsOfWindow ipc w.id state evt (ground arith)
      | inr q ↦ absurd (ground arith)
    ]
detect_focus_change-IsOfWindow ipc (other o) state evt e = absurd (cc)

emit_for-ne-defocus : (ipc : NiriIpc) (id : ℕ) (state : ipc.State) → emit_for ipc id state ≢ defocus
unfolding emit_for
emit_for-ne-defocus ipc id state e = elim (Option-cases (ipc.window state id)) [
  | inl q ↦ ground arith
  | inr (w, q) ↦ elim (Option-cases w.pid) [ inl p ↦ ground arith | inr (pid, p) ↦ ground arith ]
]

-- The focus is cleared by one event alone: a focus change to no window.
pub detect_focus_change-defocus_iff :
    (ipc : NiriIpc) (event : Event ipc.Other) (state : ipc.State)
    → (detect_focus_change ipc event state ≡ defocus) ↔ (event ≡ window_focus_changed none)
unfolding detect_focus_change
detect_focus_change-defocus_iff ipc (window_focus_changed none) state = (λ _. refl, λ _. refl)
detect_focus_change-defocus_iff ipc (window_focus_changed (some id)) state =
    (λ e. absurd (emit_for-ne-defocus ipc id state e), λ e. absurd (cc))
detect_focus_change-defocus_iff ipc (windows_changed ws) state = (
  λ e. elim (Option-cases (find (λ w. w.is_focused) ws)) [
    | inl q ↦ absurd (ground arith)
    | inr (w, q) ↦ absurd (ground (arith, emit_for-ne-defocus ipc w.id state))
  ],
  λ e. absurd (cc),
)
detect_focus_change-defocus_iff ipc (window_opened_or_changed w) state =
    (λ e. absurd (ground (arith, emit_for-ne-defocus ipc w.id state)), λ e. absurd (cc))
detect_focus_change-defocus_iff ipc (other o) state = (λ e. absurd (cc), λ e. absurd (cc))
