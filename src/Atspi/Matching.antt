-- ===== src/Atspi/Matching.antt =====
-- How bridge/src/atspi.rs compares names: `normalize_app_id`, `fuzzy_app_match`, `title_matches`,
-- and the policy `choose_frame`.
pub mod Laws
use noctalia_appmenu.Prelude.{
  ℕ, zero, suc, Bool, true, false, not, ◌&&◌, ◌||◌, List, [], ◌∷◌, Option, none, some, ltb, leb,
  if◌then◌else◌, is_empty, contains_char, contains, byte_len, text_eq, trim, Text, Unicode,
}
use noctalia_appmenu.Prelude.Str.Split.{rsplit_once}

unfoldable pub normalize_app_id : Unicode → Text → Text
unfolding rsplit_once
normalize_app_id u s =
    let trimmed = u.to_lowercase (trim s) in
    elim (rsplit_once b'.' trimmed) [
      | some p ↦ if contains_char b'.' p.0 then p.1 else trimmed
      | none ↦ trimmed
    ]

unfoldable pub fuzzy_app_match : Text → Text → Bool
fuzzy_app_match normalized_hint normalized_name =
    if is_empty normalized_hint || is_empty normalized_name
    then false
    else if ltb (byte_len normalized_name) (byte_len normalized_hint)
    then leb 3 (byte_len normalized_name) && contains normalized_hint normalized_name
    else leb 3 (byte_len normalized_hint) && contains normalized_name normalized_hint

unfoldable pub title_matches : Text → Text → Bool
title_matches frame_name focus_title =
    let a = trim frame_name in let b = trim focus_title in not (is_empty a) && text_eq a b

pub data FrameChoice : Type 0 where
  app_root : FrameChoice
  frame : Text → FrameChoice
  no_menu : FrameChoice

unfoldable pub choose_frame : ℕ → Option Text → Option Text → FrameChoice
choose_frame n_children title_hit active_hit =
    if leb n_children 1 then app_root else elim title_hit [
      | some p ↦ frame p
      | none ↦ elim active_hit [ some p ↦ frame p | none ↦ no_menu ]
    ]
