-- ===== src/Menu/Flatten/Leaves.antt =====
-- The leaves of a menu tree, the items that a click can act on: flattening loses none and adds
-- none.
use noctalia_appmenu.Prelude.{
  ℕ, suc, ◌≡◌, refl, sym, ap, ◌∙◌, inl, inr, List, [], ◌∷◌, ◌++◌, Bool-cases,
}
use mathlib.Core.List.{append-nil}
use noctalia_appmenu.Menu.Tree.{MenuFields, MenuItem, node, MenuItems, nil, cons, with_id}
use noctalia_appmenu.Menu.Flatten.{renumber, is_wrapper, flatten_qt_wrapper}

-- The fields of the items without children, in the order of the tree, but for their ids.
unfoldable mutual
  pub leaves : MenuItem → List MenuFields
  leaves (node f nil) = record f { id = 0 } ∷ []
  leaves (node f (cons m ms)) = leaves m ++ leaves_in ms

  pub leaves_in : MenuItems → List MenuFields
  leaves_in nil = []
  leaves_in (cons m ms) = leaves m ++ leaves_in ms

pub leaves-with_id : (i : ℕ) (m : MenuItem) → leaves (with_id i m) ≡ leaves m
unfolding leaves
leaves-with_id i (node f nil) = refl
leaves-with_id i (node f (cons m ms)) = refl

leaves_in-renumber : (i : ℕ) (ms : MenuItems) → leaves_in (renumber i ms) ≡ leaves_in ms
unfolding leaves renumber
leaves_in-renumber i nil = refl
leaves_in-renumber i (cons (node f nil) ms) =
    ap (◌∷◌ (record f { id = 0 })) (leaves_in-renumber (suc i) ms)
leaves_in-renumber i (cons (node f (cons m ns)) ms) =
    ap (◌++◌ (leaves m ++ leaves_in ns)) (leaves_in-renumber (suc i) ms)

pub leaves-flatten_qt_wrapper : (m : MenuItem) → leaves (flatten_qt_wrapper m) ≡ leaves m
unfolding leaves flatten_qt_wrapper renumber
leaves-flatten_qt_wrapper (node f nil) = refl
leaves-flatten_qt_wrapper (node f (cons (node g nil) nil)) = refl
leaves-flatten_qt_wrapper (node f (cons (node g (cons m ms)) nil)) =
    elim (Bool-cases (is_wrapper (node g (cons m ms)))) [
      | inl w ↦
          rw w (leaves_in-renumber 0 (cons m ms) ∙ sym (append-nil (leaves m ++ leaves_in ms)))
      | inr w ↦ rw w refl
    ]
leaves-flatten_qt_wrapper (node f (cons m (cons n ms))) = refl
