-- ===== src/Menu/Flatten.antt =====
-- `flatten_qt_wrapper` of bridge/src/atspi.rs: Qt's unnamed popup wrapper is stripped.
pub mod Laws
pub mod Leaves
use noctalia_appmenu.Prelude.{ℕ, suc, ◌%◌, ◌^◌, Bool, true, false, is_empty, if◌then◌else◌}
use noctalia_appmenu.Menu.Tree.{MenuItem, node, MenuItems, nil, cons, with_id}

-- `for (i, c) in grandchildren.iter_mut().enumerate() { c.id = i as i32 }`
unfoldable pub renumber : ℕ → MenuItems → MenuItems
renumber i nil = nil
renumber i (cons m ms) = cons (with_id (i % 2 ^ 32) m) (renumber (suc i) ms)

-- Unnamed, with children: the popup that Qt puts between a menu item and its entries.
unfoldable pub is_wrapper : MenuItem → Bool
is_wrapper (node f nil) = false
is_wrapper (node f (cons m ms)) = is_empty f.label

-- The children of an item whose only child is `only`.
unfoldable pub unwrap : MenuItem → MenuItems
unfolding is_wrapper renumber
unwrap (node f ms) = if is_wrapper (node f ms) then renumber 0 ms else cons (node f ms) nil

unfoldable pub flatten_qt_wrapper : MenuItem → MenuItem
unfolding unwrap
flatten_qt_wrapper (node f nil) = node f nil
flatten_qt_wrapper (node f (cons only nil)) = node f (unwrap only)
flatten_qt_wrapper (node f (cons m (cons n ms))) = node f (cons m (cons n ms))
