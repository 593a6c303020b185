-- ===== src/Atspi/Fetch/Origin.antt =====
-- Where the items of a tree come from, and when a walk panics.
use noctalia_appmenu.Prelude.{
  ℕ, zero, suc, ◌≡◌, refl, ◌≢◌, inl, inr, pos, List, [], ◌∷◌, some, Bool-cases,
}
use noctalia_appmenu.Menu.Tree.{
  MenuItem, node, MenuItems, nil, cons, item, fields, with_id, Everywhere, EverywhereIn,
}
use noctalia_appmenu.Menu.Flatten.{flatten_qt_wrapper, renumber, is_wrapper}
use noctalia_appmenu.Atspi.World.{Outcome, ok, err, panic, Ref, World, child_refs, child_count}
use noctalia_appmenu.Atspi.Fetch.{
  fields_of, fetch_children, keep_child, reserve, fetch_levels, fetch_menu_tree,
}
use noctalia_appmenu.Atspi.Fetch.Rule.{fetch_levels_inv}
use noctalia_appmenu.Atspi.Fetch.Laws.{of_returns, All-EverywhereIn}

-- The accessibles below a root: the root, and the answered children of one below it.
pub data Below (w : World) (root : Ref) : Ref → Type 0 where
  itself : Below w root root
  child : {r c : Ref} (i : ℕ) → Below w root r → w.get_child_at_index r i ≡ some c → Below w root c

-- An item that stands for an accessible below the root, by its coordinates and its name.
abbrev pub Names : World → Ref → MenuItem → Type 0
Names w root m =
    (r : Ref) × Below w root r
    × ((fields m).service ≡ r.service)
    × ((fields m).path ≡ r.path)
    × ((fields m).label ≡ (fields_of w r).label)

with_id-Names :
    (w : World) (root : Ref) (i : ℕ) (m : MenuItem)
    → Everywhere (Names w root) m
    → Everywhere (Names w root) (with_id i m)
with_id-Names w root i (node f ms) h = h

renumber-Names :
    (w : World) (root : Ref) (i : ℕ) (ms : MenuItems)
    → EverywhereIn (Names w root) ms
    → EverywhereIn (Names w root) (renumber i ms)
unfolding renumber
renumber-Names w root i nil h = tt
renumber-Names w root i (cons (node f ns) ms) (h, hs) = (h, renumber-Names w root (suc i) ms hs)

flatten-Names :
    (w : World) (root : Ref) (m : MenuItem)
    → Everywhere (Names w root) m
    → Everywhere (Names w root) (flatten_qt_wrapper m)
unfolding flatten_qt_wrapper
flatten-Names w root (node f nil) h = h
flatten-Names w root (node f (cons (node g ms) nil)) (h, ((k, ks), _)) =
    elim (Bool-cases (is_wrapper (node g ms))) [
      | inl e ↦ rw e (h, renumber-Names w root 0 ms ks)
      | inr e ↦ rw e (h, ((k, ks), tt))
    ]
flatten-Names w root (node f (cons m (cons n ms))) h = h

-- Every item of the tree that a walk returns stands for an accessible that the walked application
-- answered with, below the menubar: its service and path are that accessible's, and so is its
-- label.
pub fetch_menu_tree-Names :
    (w : World) (r : Ref) (cur_depth : ℕ) (m : MenuItem)
    → fetch_menu_tree w r cur_depth ≡ ok m
    → Everywhere (Names w r) m
unfolding fetch_menu_tree fields_of
fetch_menu_tree-Names w r cur_depth m e = of_returns (Everywhere (Names w r)) e (
    fetch_levels_inv w (Below w r) (λ s c i k a. child i k a) (λ _. Everywhere (Names w r))
      (λ _. with_id-Names w r) (λ s k. ((s, k, refl, refl, refl), tt))
      (λ n s ms k h.
        flatten-Names w r (item (fields_of w s) ms)
          ((s, k, refl, refl, refl), All-EverywhereIn (Names w r) ms h))
      _ r itself)

pub fetch_children-ne-panic :
    (walk : Ref → Outcome MenuItem)
    → ((r : Ref) → walk r ≢ panic)
    → (rs : List (ℕ × Ref)) → (ms : List MenuItem) × (fetch_children walk rs ≡ ok ms)
unfolding fetch_children keep_child
fetch_children-ne-panic walk h [] = ([], refl)
fetch_children-ne-panic walk h ((i, c) ∷ rest) =
    keep (walk c) (h c) (fetch_children walk rest) (fetch_children-ne-panic walk h rest)
  where
    keep :
        (got : Outcome MenuItem)
        → got ≢ panic
        → (others : Outcome (List MenuItem)) → (ms : List MenuItem) × (others ≡ ok ms)
        → (ms : List MenuItem) × (keep_child i got others ≡ ok ms)
    keep (ok m) n others (ms, e) = (with_id i m ∷ ms, rw e refl)
    keep err n others (ms, e) = (ms, e)
    keep panic n others k = absurd (n refl)

-- Where no accessible reports a negative number of children, a walk never panics.
pub fetch_levels-ne-panic :
    (w : World)
    → ((r : Ref) → (n : ℕ) × (child_count w r ≡ pos n))
    → (left : ℕ) (r : Ref) → fetch_levels w left r ≢ panic
unfolding fetch_levels reserve
fetch_levels-ne-panic w h zero r = elim (Bool-cases (w.builds r)) [
  | inl b ↦ rw b (λ p. cc)
  | inr b ↦ rw b (λ p. cc)
]
fetch_levels-ne-panic w h (suc left) r =
    let (n, e) = h r in
    let (ms, f) =
      fetch_children-ne-panic (fetch_levels w left) (fetch_levels-ne-panic w h left)
        (child_refs w r 0 n) in
    elim (Bool-cases (w.builds r)) [
      | inl b ↦ rw (b, e, reserve, f) (λ p. cc)
      | inr b ↦ rw b (λ p. cc)
    ]
