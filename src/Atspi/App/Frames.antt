-- ===== src/Atspi/App/Frames.antt =====
-- The frame that a window of a process with several windows is given.
use noctalia_appmenu.Prelude.{
  ◌≡◌, refl, ◌≢◌, ◌≤◌, ◌<◌, ◌⊎◌, inl, inr, false, List, [], ◌∷◌, Option, none, some, arith, Any,
  length, find, Bool-cases, trim, Text,
}
use mathlib.Core.Option
use noctalia_appmenu.Atspi.World.{Ref, World}
use noctalia_appmenu.Atspi.Matching.{title_matches, choose_frame}
use noctalia_appmenu.Atspi.Matching.Laws.{title_matches_iff}
use noctalia_appmenu.Atspi.App.{
  list_frames, title_hit, scan_for_active_frame, resolve_focused_frame,
}

-- A frame with the focused window's title.
abbrev pub IsTitled : Text → Text × Text → Type 0
IsTitled title f = (trim f.1 ≡ trim title) × (trim f.1 ≢ [])

find-title :
    (title : Text) (frames : List (Text × Text))
    → Any (IsTitled title) frames
    → (f : Text × Text) × (find (λ g. title_matches g.1 title) frames ≡ some f)
      × Any (λ g. (g ≡ f) × IsTitled title g) frames
unfolding find
find-title title [] h = absurd h
find-title title (f ∷ fs) h = elim (Bool-cases (title_matches f.1 title)) [
  | inl m ↦ (f, rw m refl, inl (refl, (title_matches_iff f.1 title).0 m))
  | inr m ↦ let (g, e, k) = find-title title fs (later h m) in (g, rw m e, inr k)
]
  where
    later :
        IsTitled title f ⊎ Any (IsTitled title) fs
        → title_matches f.1 title ≡ false
        → Any (IsTitled title) fs
    later (inl t) m = absurd (cc (m, (title_matches_iff f.1 title).1 t))
    later (inr k) m = k

-- In a process with several windows, where some frame has the focused window's title, the walk is
-- scoped to a frame that has it.
pub resolve_focused_frame-IsTitled :
    (w : World) (app : Ref) (title : Text)
    → 1 < length (list_frames w app)
    → Any (IsTitled title) (list_frames w app)
    → (f : Text × Text) × (resolve_focused_frame w app (some title)
        ≡ some (record app { path = f.0 }))
      × Any (λ g. (g ≡ f) × IsTitled title g) (list_frames w app)
unfolding resolve_focused_frame title_hit choose_frame
resolve_focused_frame-IsTitled w app title several h =
    let (f, e, k) = find-title title (list_frames w app) h in (f, ground arith, k)

-- In a process with several windows, where no frame has the title, the walk is scoped to the first
-- accessible in the active state at most two levels below the application, itself included, and
-- with none of these there is no menu.
pub resolve_focused_frame-untitled :
    (w : World) (app : Ref) (title : Option Text)
    → 1 < length (list_frames w app)
    → title_hit (list_frames w app) title ≡ none
    → resolve_focused_frame w app title
      ≡ Option.map (λ p. record app { path = p }) (scan_for_active_frame w app 2)
unfolding resolve_focused_frame choose_frame
resolve_focused_frame-untitled w app title several h = ground arith

-- An application with at most one window is walked from its root.
pub resolve_focused_frame-single :
    (w : World) (app : Ref) (title : Option Text)
    → length (list_frames w app) ≤ 1
    → resolve_focused_frame w app title ≡ some app
unfolding resolve_focused_frame choose_frame
resolve_focused_frame-single w app title few = ground arith
