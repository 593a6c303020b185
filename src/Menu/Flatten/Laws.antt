-- ===== src/Menu/Flatten/Laws.antt =====
-- What flattening leaves: no wrapper below an item whose child is free of them.
use noctalia_appmenu.Prelude.{ℕ, suc, ◌≡◌, refl, ◌∙◌, Bool, false, inl, inr, Bool-cases}
use noctalia_appmenu.Menu.Tree.{
  MenuItem, node, MenuItems, nil, cons, Everywhere, EverywhereIn, MenuFields,
}
use noctalia_appmenu.Menu.Flatten.{renumber, is_wrapper, flatten_qt_wrapper}

-- The test at the head of `flatten_qt_wrapper`: the item has one child, and that is a wrapper.
unfoldable pub is_wrapped : MenuItem → Bool
unfolding is_wrapper
is_wrapped (node f nil) = false
is_wrapped (node f (cons only nil)) = is_wrapper only
is_wrapped (node f (cons m (cons n ms))) = false

abbrev pub IsFlat : MenuItem → Type 0
IsFlat m = is_wrapped m ≡ false

abbrev pub IsFlatEverywhere : MenuItem → Type 0
IsFlatEverywhere = Everywhere IsFlat

pub flatten_of_IsFlat : (m : MenuItem) → IsFlat m → flatten_qt_wrapper m ≡ m
unfolding is_wrapped flatten_qt_wrapper
flatten_of_IsFlat (node f nil) h = refl
flatten_of_IsFlat (node f (cons (node g nil) nil)) h = refl
flatten_of_IsFlat (node f (cons (node g (cons m ms)) nil)) h = rw h refl
flatten_of_IsFlat (node f (cons m (cons n ms))) h = refl

is_wrapped-renumber :
    (f g : MenuFields) (i : ℕ) (ms : MenuItems)
    → is_wrapped (node f (renumber i ms)) ≡ is_wrapped (node g ms)
unfolding is_wrapped renumber
is_wrapped-renumber f g i nil = refl
is_wrapped-renumber f g i (cons (node h nil) nil) = refl
is_wrapped-renumber f g i (cons (node h (cons m ms)) nil) = refl
is_wrapped-renumber f g i (cons m (cons n ms)) = refl

EverywhereIn-renumber :
    (i : ℕ) (ms : MenuItems) → EverywhereIn IsFlat ms → EverywhereIn IsFlat (renumber i ms)
unfolding renumber is_wrapped
EverywhereIn-renumber i nil h = tt
EverywhereIn-renumber i (cons (node f nil) ms) (p, h) = (p, EverywhereIn-renumber (suc i) ms h)
EverywhereIn-renumber i (cons (node f (cons m nil)) ms) (p, h) =
    (p, EverywhereIn-renumber (suc i) ms h)
EverywhereIn-renumber i (cons (node f (cons m (cons n ns))) ms) (p, h) =
    (p, EverywhereIn-renumber (suc i) ms h)

-- Flattening an item whose children are flat at every level gives a tree that is.
pub flatten-IsFlatEverywhere :
    (f : MenuFields) (ms : MenuItems)
    → EverywhereIn IsFlat ms
    → IsFlatEverywhere (flatten_qt_wrapper (node f ms))
unfolding flatten_qt_wrapper is_wrapped
flatten-IsFlatEverywhere f nil h = (refl, tt)
flatten-IsFlatEverywhere f (cons (node g nil) nil) h = (refl, h)
flatten-IsFlatEverywhere f (cons (node g (cons m ms)) nil) ((p, q), _) =
    elim (Bool-cases (is_wrapper (node g (cons m ms)))) [
      | inl w ↦
          rw w (is_wrapped-renumber f g 0 (cons m ms) ∙ p, EverywhereIn-renumber 0 (cons m ms) q)
      | inr w ↦ rw w (w, ((p, q), tt))
    ]
flatten-IsFlatEverywhere f (cons m (cons n ms)) h = (refl, h)
