-- ===== src/Atspi/App.antt =====
-- `find_app_for_pid` of bridge/src/atspi.rs and what it calls: the application, or the frame, that
-- belongs to the focused window.
pub mod Laws
pub mod Frames
use noctalia_appmenu.Prelude.{
  ℕ, zero, suc, ◌==◌, Bool, true, false, not, ◌&&◌, List, [], ◌∷◌, ◌++◌, map, Option, none, some,
  ltb, if◌then◌else◌, is_empty, length, find, retain, text_eq, Text, codes, Unicode,
}
use mathlib.Core.Option
use noctalia_appmenu.Atspi.World.{
  Outcome, ok, err, panic, ◌>>=◌, Ref, World, rounds, child_refs, child_count,
}
use noctalia_appmenu.Atspi.Fetch.{state_word, has_bit}
use noctalia_appmenu.Atspi.Matching.{
  normalize_app_id, fuzzy_app_match, title_matches, FrameChoice, app_root, frame, no_menu,
  choose_frame,
}

-- The session's a11y bus: the accessibles' answers, and `get_connection_unix_process_id`, which
-- answers nothing for a name that is no bus name.
pub record Bus : Type 0 where
  pub world : World
  pub process_id : Text → Option ℕ
  -- whether `DBusProxy::new` succeeds
  pub has_dbus : Bool

abbrev pub registry : Ref
registry = record {
  service = codes "org.a11y.atspi.Registry";
  path = codes "/org/a11y/atspi/accessible/root";
}

-- The answered children that stay on the parent's own bus connection.
unfoldable pub own_children : World → Ref → List Ref
own_children w r =
    retain (λ c. text_eq c.service r.service)
      (map (λ c. c.1) (child_refs w r 0 (rounds (child_count w r))))

-- The frames of an application: their paths and names.
unfoldable pub list_frames : World → Ref → List (Text × Text)
list_frames w app =
    let named = map (λ c. (c.path, Option.get_or (w.read_name c) [])) (own_children w app) in
    if w.builds app then named else []

unfoldable pub first_active : (Ref → Option Text) → List Ref → Option Text
first_active scan [] = none
first_active scan (c ∷ rest) = elim (scan c) [ some p ↦ some p | none ↦ first_active scan rest ]

-- `scan_for_active_frame`, with `ACTIVE_BIT` at index 1: the first accessible in the levels below
-- that has the state.
unfoldable pub scan_for_active_frame : World → Ref → ℕ → Option Text
scan_for_active_frame w r zero =
    if w.builds r && has_bit (state_word (Option.get_or (w.get_state r) [])) 1
    then some r.path
    else none
scan_for_active_frame w r (suc depth) =
    let below = first_active (λ c. scan_for_active_frame w c depth) (own_children w r) in
    if not (w.builds r)
    then none
    else if has_bit (state_word (Option.get_or (w.get_state r) [])) 1
    then some r.path
    else below

-- The first frame whose name is the focused window's title.
unfoldable pub title_hit : List (Text × Text) → Option Text → Option Text
title_hit frames none = none
title_hit frames (some title) = Option.map (λ f. f.0) (find (λ f. title_matches f.1 title) frames)

abbrev chosen : Ref → FrameChoice → Option Ref
chosen app app_root = some app
chosen app (frame path) = some (record app { path = path })
chosen app no_menu = none

unfoldable pub resolve_focused_frame : World → Ref → Option Text → Option Ref
resolve_focused_frame w app focus_title =
    let frames = list_frames w app in
    let hit = title_hit frames focus_title in
    let active : Option Text = elim hit [
      | none ↦ if ltb 1 (length frames) then scan_for_active_frame w app 2 else none
      | some _ ↦ none
    ] in
    chosen app (choose_frame (length frames) hit active)

-- What pass 1 ends with: an application of the process, or the applications of others.
pub data Scan : Type 0 where
  matched : Ref → Scan
  unmatched : List Ref → Scan

unfoldable pub scan_pids : Bus → ℕ → List Ref → List Ref → Scan
scan_pids bus pid candidates [] = unmatched candidates
scan_pids bus pid candidates (c ∷ rest) =
    let other = scan_pids bus pid (candidates ++ c ∷ []) rest in
    let skipped = scan_pids bus pid candidates rest in
    elim (bus.process_id c.service) [
      | none ↦ skipped
      | some p ↦ if p == pid then matched c else other
    ]

-- Whether the application's own name fuzzily is the normalised hint.
abbrev pub corroborates : Unicode → World → Text → Ref → Bool
corroborates u w hint c = elim (w.read_name c) [
  | none ↦ false
  | some name ↦ fuzzy_app_match hint (normalize_app_id u name)
]

-- The loop of `find_active_app_via_state`.
unfoldable pub active_candidate : Unicode → World → Text → List Ref → Option Ref
active_candidate u w hint [] = none
active_candidate u w hint (c ∷ rest) =
    let later = active_candidate u w hint rest in
    elim (scan_for_active_frame w c 2) [
      | none ↦ later
      | some path ↦ if corroborates u w hint c then some (record c { path = path }) else later
    ]

unfoldable pub find_active_app_via_state : Unicode → World → List Ref → Option Text → Option Ref
find_active_app_via_state u w candidates none = none
find_active_app_via_state u w candidates (some hint) =
    let normalized_hint = normalize_app_id u hint in
    if is_empty normalized_hint then none else active_candidate u w normalized_hint candidates

-- Passes 2 and 3.
unfoldable pub find_by_hint : Unicode → World → List Ref → Option Text → Option Ref
find_by_hint u w candidates none = none
find_by_hint u w candidates (some hint) =
    let normalized_hint = normalize_app_id u hint in
    elim (find_active_app_via_state u w candidates (some hint)) [
      | some found ↦ some found
      | none ↦
          if is_empty normalized_hint
          then none
          else find (corroborates u w normalized_hint) candidates
    ]

unfoldable pub after_scan : Unicode → World → Option Text → Option Text → Scan → Option Ref
after_scan u w app_id_hint focus_title (matched app) = resolve_focused_frame w app focus_title
after_scan u w app_id_hint focus_title (unmatched candidates) =
    find_by_hint u w candidates app_id_hint

unfoldable pub find_app_for_pid :
    Unicode → Bus → ℕ → Option Text → Option Text → Outcome (Option Ref)
find_app_for_pid u bus pid app_id_hint focus_title =
    let w = bus.world in
    elim (w.read_child_count registry) [
      | none ↦ err
      | some count ↦
          let apps = map (λ c. c.1) (child_refs w registry 0 (rounds count)) in
          if w.builds registry && bus.has_dbus
          then ok (after_scan u w app_id_hint focus_title (scan_pids bus pid [] apps))
          else err
    ]
