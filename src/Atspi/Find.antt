-- ===== src/Atspi/Find.antt =====
-- `find_menubar` of bridge/src/atspi.rs: the depth-first search for a menubar.
pub mod Laws
use noctalia_appmenu.Prelude.{
  ℕ, zero, suc, ◌-◌, ◌==◌, Bool, List, [], ◌∷◌, Option, none, some, if◌then◌else◌,
}
use mathlib.Core.Option
use noctalia_appmenu.Atspi.World.{
  Outcome, ok, err, panic, Ref, World, rounds, child_refs, child_count,
}
use noctalia_appmenu.Atspi.Fetch.{menu_bar}

-- `MAX_FIND_DEPTH`
abbrev pub max_find_depth : ℕ
max_find_depth = 8

-- `proxy.get_role().await.unwrap_or(0) == role::MENU_BAR`
abbrev pub is_menubar : World → Ref → Bool
is_menubar w r = Option.get_or (w.get_role r) 0 == menu_bar

-- The loop over the children: the first hit returns, and so does the first error.
unfoldable pub find_among : (Ref → Outcome (Option Ref)) → List (ℕ × Ref) → Outcome (Option Ref)
find_among search_at [] = ok none
find_among search_at (c ∷ rest) = elim (search_at c.1) [
  | ok (some found) ↦ ok (some found)
  | ok none ↦ find_among search_at rest
  | err ↦ err
  | panic ↦ panic
]

-- The search with `left` levels to go, `left = MAX_FIND_DEPTH - cur_depth`.
unfoldable pub find_levels : World → ℕ → Ref → Outcome (Option Ref)
unfolding find_among child_refs
find_levels w zero r = ok none
find_levels w (suc left) r =
    let below : Outcome (Option Ref) =
      find_among (find_levels w left) (child_refs w r 0 (rounds (child_count w r))) in
    if w.builds r then (if is_menubar w r then ok (some r) else below) else err

unfoldable pub find_menubar : World → Ref → ℕ → Outcome (Option Ref)
unfolding find_levels
find_menubar w r cur_depth = find_levels w (max_find_depth - cur_depth) r
