-- ===== src/Atspi/Fetch.antt =====
-- `fetch_menu_tree` of bridge/src/atspi.rs: a menubar's subtree as a `MenuItem`.
pub mod Rule
pub mod Laws
pub mod Origin
pub mod Complete
pub mod Panics
use noctalia_appmenu.Prelude.{
  ℕ, zero, suc, ◌-◌, ◌+◌, ◌*◌, ◌^◌, ◌/◌, ◌%◌, ℤ, pos, negsuc, Bool, true, false, not, ◌&&◌, ◌||◌,
  List, [], ◌∷◌, Option, none, some, ltb, ◌==◌, if◌then◌else◌, is_empty, codes, Text,
}
use mathlib.Core.Option
use noctalia_appmenu.Menu.Tree.{MenuItem, MenuFields, item, with_id}
use noctalia_appmenu.Menu.Flatten.{flatten_qt_wrapper}
use noctalia_appmenu.Atspi.World.{
  Outcome, ok, err, panic, ◌>>=◌, Ref, World, rounds, child_refs, child_count,
}

-- `mod role`
abbrev pub check_menu_item : ℕ
check_menu_item = 8

abbrev pub menu_role : ℕ
menu_role = 33

abbrev pub menu_bar : ℕ
menu_bar = 34

abbrev pub radio_menu_item : ℕ
radio_menu_item = 45

abbrev pub separator_role : ℕ
separator_role = 50

-- `MAX_FETCH_DEPTH`
abbrev pub max_fetch_depth : ℕ
max_fetch_depth = 3

-- The two words of the state set as one number, `(hi << 32) | lo`: `lo` is a `u32`, so the bits do
-- not meet.
unfoldable pub state_word : List ℕ → ℕ
state_word [] = 0
state_word (lo ∷ []) = lo
state_word (lo ∷ hi ∷ _) = hi * 2 ^ 32 + lo

-- `state & (1 << k) != 0`
abbrev pub has_bit : ℕ → ℕ → Bool
has_bit state k = state / 2 ^ k % 2 == 1

unfoldable pub item_type_of : ℕ → ℤ → Text
item_type_of role count =
    if role == separator_role
    then codes "separator"
    else if ltb 0 (rounds count) || role == menu_role || role == menu_bar
    then codes "submenu"
    else codes "standard"

unfoldable pub toggle_type_of : ℕ → Text
toggle_type_of role =
    if role == check_menu_item
    then codes "checkmark"
    else if role == radio_menu_item
    then codes "radio"
    else []

-- The item of one accessible, before its children.
unfoldable pub fields_of : World → Ref → MenuFields
unfolding state_word item_type_of toggle_type_of
fields_of w r =
    let role = Option.get_or (w.get_role r) 0 in
    let state = state_word (Option.get_or (w.get_state r) []) in
    let toggle = toggle_type_of role in
    record {
      id = 0;
      label = Option.get_or (w.read_name r) [];
      item_type = item_type_of role (child_count w r);
      enabled = has_bit state 8 && has_bit state 24;
      visible = true;
      icon_name = [];
      toggle_type = toggle;
      toggle_state = if not (is_empty toggle) && has_bit state 4 then 1 else 0;
      service = r.service;
      path = r.path;
    }

-- A child's walk: `.ok()?` drops an error, and a panic unwinds.
keep_child : ℕ → Outcome MenuItem → Outcome (List MenuItem) → Outcome (List MenuItem)
keep_child i (ok child) (ok rest) = ok (with_id i child ∷ rest)
keep_child i (ok child) err = err
keep_child i (ok child) panic = panic
keep_child i err rest = rest
keep_child i panic rest = panic

-- Stage 2, `buffered(8)` in index order, over the children's walk.
unfoldable pub fetch_children : (Ref → Outcome MenuItem) → List (ℕ × Ref) → Outcome (List MenuItem)
unfolding keep_child
fetch_children walk [] = ok []
fetch_children walk ((i, c) ∷ rest) = keep_child i (walk c) (fetch_children walk rest)

-- `Vec::with_capacity(count as usize)`: a negative count is a capacity past `isize::MAX`, which
-- panics.
unfoldable pub reserve : ℤ → Outcome (Unit {0})
reserve (pos n) = ok tt
reserve (negsuc n) = panic

-- The walk with `left` levels to go, `left = MAX_FETCH_DEPTH - cur_depth`.
unfoldable pub fetch_levels : World → ℕ → Ref → Outcome MenuItem
unfolding fields_of fetch_children child_refs reserve flatten_qt_wrapper
fetch_levels w zero r = if w.builds r then ok (item (fields_of w r) []) else err
fetch_levels w (suc left) r =
    let walk : Outcome MenuItem = reserve (child_count w r) >>= λ _.
    fetch_children (fetch_levels w left) (child_refs w r 0 (rounds (child_count w r))) >>= λ found.
    ok (flatten_qt_wrapper (item (fields_of w r) found)) in
    if w.builds r then walk else err

unfoldable pub fetch_menu_tree : World → Ref → ℕ → Outcome MenuItem
unfolding fetch_levels
fetch_menu_tree w r cur_depth = fetch_levels w (max_fetch_depth - cur_depth) r
