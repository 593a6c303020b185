-- ===== src/Menu/Tests.antt =====
-- Nested single wrappers are taken off one level at a time.
use noctalia_appmenu.Prelude.{◌≡◌, refl, [], ◌∷◌}
use noctalia_appmenu.Menu.Tree.{MenuItem, item, blank}
use noctalia_appmenu.Menu.Flatten.{flatten_qt_wrapper, renumber}

abbrev leaf : MenuItem
leaf = item blank []

abbrev nested : MenuItem
nested = item blank (item blank (item blank (leaf ∷ []) ∷ []) ∷ [])

flattens_once : flatten_qt_wrapper nested ≡ item blank (item blank (leaf ∷ []) ∷ [])
unfolding flatten_qt_wrapper renumber
flattens_once = refl

flattens_twice : flatten_qt_wrapper (flatten_qt_wrapper nested) ≡ item blank (leaf ∷ [])
unfolding flatten_qt_wrapper renumber
flattens_twice = refl
