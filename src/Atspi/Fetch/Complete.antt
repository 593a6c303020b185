-- ===== src/Atspi/Fetch/Complete.antt =====
-- A walk shows the accessibility tree down to its depth: all of its leaves, in order, and no
-- others.
use mathlib.Core.Path.{subst}
use mathlib.Core.List.{append_assoc}
use noctalia_appmenu.Prelude.{
  ℕ, zero, suc, ℤ, pos, negsuc, ◌-◌, ◌≡◌, refl, sym, ap, ◌∙◌, inl, inr, List, [], ◌∷◌, ◌++◌,
  Bool-cases, if◌then◌else◌,
}
use noctalia_appmenu.Menu.Tree.{MenuFields, MenuItem, node, nil, cons, item, of_list}
use noctalia_appmenu.Menu.Flatten.{flatten_qt_wrapper}
use noctalia_appmenu.Menu.Flatten.Leaves.{
  leaves, leaves_in, leaves-with_id, leaves-flatten_qt_wrapper,
}
use noctalia_appmenu.Atspi.World.{
  Outcome, ok, err, panic, ◌>>=◌, Ref, World, rounds, child_refs, child_count,
}
use noctalia_appmenu.Atspi.Fetch.{
  fields_of, fetch_children, keep_child, reserve, fetch_levels, fetch_menu_tree, max_fetch_depth,
}

-- The accessibles' items, or the one of the accessible itself if there is none.
abbrev or_itself : MenuFields → List MenuFields → List MenuFields
or_itself f [] = f ∷ []
or_itself f (g ∷ gs) = g ∷ gs

abbrev gather : {A : Type 0} → (Ref → List A) → List (ℕ × Ref) → List A
gather visit [] = []
gather visit ((i, c) ∷ rest) = visit c ++ gather visit rest

-- The leaves of the accessibility tree below an accessible, cut at a depth. An accessible that
-- cannot be read is skipped with all that is below it.
unfoldable pub shown : World → ℕ → Ref → List MenuFields
shown w zero r = if w.builds r then fields_of w r ∷ [] else []
shown w (suc left) r =
    let below = gather (shown w left) (child_refs w r 0 (rounds (child_count w r))) in
    if w.builds r then or_itself (fields_of w r) below else []

-- What a walk returns, against what is to be shown: a tree with those leaves, an error where there
-- is nothing, or a panic.
abbrev Shows : List MenuFields → Outcome MenuItem → Type 0
Shows fs (ok m) = leaves m ≡ fs
Shows fs err = fs ≡ []
Shows fs panic = Unit

abbrev ShowsAll : List MenuFields → Outcome (List MenuItem) → Type 0
ShowsAll fs (ok ms) = leaves_in (of_list ms) ≡ fs
ShowsAll fs err = ⊥
ShowsAll fs panic = Unit

fetch_children-ShowsAll :
    (walk : Ref → Outcome MenuItem) (visit : Ref → List MenuFields)
    → ((r : Ref) → Shows (visit r) (walk r))
    → (rs : List (ℕ × Ref)) → ShowsAll (gather visit rs) (fetch_children walk rs)
unfolding fetch_children keep_child leaves
fetch_children-ShowsAll walk visit each [] = refl
fetch_children-ShowsAll walk visit each ((i, c) ∷ rest) =
    keep (walk c) (visit c) (fetch_children walk rest) (gather visit rest) (each c)
      (fetch_children-ShowsAll walk visit each rest)
  where
    keep :
        (child : Outcome MenuItem) (fs : List MenuFields) (others : Outcome (List MenuItem))
        (gs : List MenuFields)
        → Shows fs child
        → ShowsAll gs others
        → ShowsAll (fs ++ gs) (keep_child i child others)
    keep (ok m) fs (ok ms) gs h k = rw (leaves-with_id i m, h, k) refl
    keep (ok m) fs err gs h k = k
    keep (ok m) fs panic gs h k = tt
    keep err fs others gs h k = rw h k
    keep panic fs others gs h k = tt

-- A tree has a leaf.
or_itself-leaves :
    (f : MenuFields) (m : MenuItem) (fs : List MenuFields)
    → or_itself f (leaves m ++ fs) ≡ leaves m ++ fs
unfolding leaves
or_itself-leaves f (node g nil) fs = refl
or_itself-leaves f (node g (cons m ms)) fs =
    rw (append_assoc (leaves m) (leaves_in ms) fs) (or_itself-leaves f m (leaves_in ms ++ fs))

leaves-item :
    (w : World) (r : Ref) (ms : List MenuItem)
    → leaves (item (fields_of w r) ms) ≡ or_itself (fields_of w r) (leaves_in (of_list ms))
unfolding leaves fields_of
leaves-item w r [] = refl
leaves-item w r (m ∷ ms) = sym (or_itself-leaves (fields_of w r) m (leaves_in (of_list ms)))

fetch_levels-Shows :
    (w : World) (left : ℕ) (r : Ref) → Shows (shown w left r) (fetch_levels w left r)
unfolding fetch_levels shown leaves_in reserve
fetch_levels-Shows w zero r = elim (Bool-cases (w.builds r)) [
  | inl b ↦ rw b (leaves-item w r [])
  | inr b ↦ rw b refl
]
fetch_levels-Shows w (suc left) r = elim (Bool-cases (w.builds r)) [
  | inl b ↦ rw b (
      grown (child_count w r)
        (fetch_children (fetch_levels w left) (child_refs w r 0 (rounds (child_count w r))))
        (gather (shown w left) (child_refs w r 0 (rounds (child_count w r))))
        (fetch_children-ShowsAll (fetch_levels w left) (shown w left) (fetch_levels-Shows w left)
          (child_refs w r 0 (rounds (child_count w r)))))
  | inr b ↦ rw b refl
]
  where
    grown :
        (count : ℤ) (found : Outcome (List MenuItem)) (fs : List MenuFields)
        → ShowsAll fs found
        → Shows (or_itself (fields_of w r) fs) (
            reserve count >>= λ _.
            found >>= λ ms. ok (flatten_qt_wrapper (item (fields_of w r) ms)))
    grown (pos n) (ok ms) fs h =
        leaves-flatten_qt_wrapper (item (fields_of w r) ms)
        ∙ leaves-item w r ms
        ∙ ap (or_itself (fields_of w r)) h
    grown (pos n) err fs h = absurd h
    grown (pos n) panic fs h = tt
    grown (negsuc n) found fs h = tt

-- The leaves of the tree that a walk returns are exactly those of the accessibility tree, cut at
-- the depth, in its order, with their names, states, services and paths, where an accessible that
-- cannot be read counts as absent, with what is below it: neither the parallel fetch nor the
-- flattening loses an entry of a menu, adds one, or moves one.
pub fetch_menu_tree-leaves :
    (w : World) (r : Ref) (cur_depth : ℕ) (m : MenuItem)
    → fetch_menu_tree w r cur_depth ≡ ok m
    → leaves m ≡ shown w (max_fetch_depth - cur_depth) r
unfolding fetch_menu_tree
fetch_menu_tree-leaves w r cur_depth m e =
    subst (Shows (shown w (max_fetch_depth - cur_depth) r)) e
      (fetch_levels-Shows w (max_fetch_depth - cur_depth) r)
