-- ===== src/Atspi/Fetch/Laws.antt =====
-- What a walk returns: flat at every level, bounded in depth, made of answered accessibles.
use Prim.Native.Nat.{max}
use noctalia_appmenu.Prelude.{
  ℕ, suc, ◌≤◌, ◌≡◌, refl, inl, inr, List, [], ◌∷◌, arith, All, Bool-cases,
}
use noctalia_appmenu.Menu.Tree.{
  MenuItem, node, MenuItems, nil, cons, item, of_list, with_id, Everywhere, EverywhereIn,
}
use noctalia_appmenu.Menu.Flatten.{flatten_qt_wrapper, renumber, is_wrapper}
use noctalia_appmenu.Menu.Flatten.Laws.{
  IsFlat, IsFlatEverywhere, is_wrapped, flatten-IsFlatEverywhere,
}
use noctalia_appmenu.Atspi.World.{Outcome, ok, Ref, World}
use noctalia_appmenu.Atspi.Fetch.{fields_of, fetch_menu_tree}
use noctalia_appmenu.Atspi.Fetch.Rule.{Returns, fetch_levels_inv}

pub All-EverywhereIn :
    (P : MenuItem → Type 0) (ms : List MenuItem)
    → All (Everywhere P) ms
    → EverywhereIn P (of_list ms)
All-EverywhereIn P [] h = tt
All-EverywhereIn P (m ∷ ms) (h, hs) = (h, All-EverywhereIn P ms hs)

pub of_returns {ℓ} :
    {A : Type ℓ} (P : A → Type 0) {o : Outcome A} {a : A} → o ≡ ok a → Returns P o → P a
of_returns P e h = rw e at h

with_id-IsFlatEverywhere :
    (i : ℕ) (m : MenuItem) → IsFlatEverywhere m → IsFlatEverywhere (with_id i m)
unfolding is_wrapped
with_id-IsFlatEverywhere i (node f nil) h = h
with_id-IsFlatEverywhere i (node f (cons m nil)) h = h
with_id-IsFlatEverywhere i (node f (cons m (cons n ms))) h = h

-- Every tree that a walk returns has no unnamed popup wrapper left: at no node is there a single
-- child that has no label and has children.
pub fetch_menu_tree-IsFlatEverywhere :
    (w : World) (r : Ref) (cur_depth : ℕ) (m : MenuItem)
    → fetch_menu_tree w r cur_depth ≡ ok m
    → IsFlatEverywhere m
unfolding fetch_menu_tree is_wrapped
fetch_menu_tree-IsFlatEverywhere w r cur_depth m e = of_returns IsFlatEverywhere e (
    fetch_levels_inv w (λ _. Unit {0}) (λ _ _ _ _ _. tt) (λ _. IsFlatEverywhere)
      (λ _. with_id-IsFlatEverywhere) (λ _ _. (refl, tt))
      (λ n s ms _ h.
        flatten-IsFlatEverywhere (fields_of w s) (of_list ms) (All-EverywhereIn IsFlat ms h))
      _ r tt)

-- The levels of a tree.
unfoldable mutual
  pub depth : MenuItem → ℕ
  depth (node f ms) = suc (depth_in ms)

  pub depth_in : MenuItems → ℕ
  depth_in nil = 0
  depth_in (cons m ms) = max (depth m) (depth_in ms)

depth-with_id : (i : ℕ) (m : MenuItem) → depth (with_id i m) ≡ depth m
unfolding depth
depth-with_id i (node f ms) = refl

depth_in-renumber : (i : ℕ) (ms : MenuItems) → depth_in (renumber i ms) ≡ depth_in ms
unfolding depth renumber
depth_in-renumber i nil = refl
depth_in-renumber i (cons (node f ns) ms) = rw (depth_in-renumber (suc i) ms)

depth-flatten_qt_wrapper : (m : MenuItem) → depth (flatten_qt_wrapper m) ≤ depth m
unfolding flatten_qt_wrapper depth
depth-flatten_qt_wrapper (node f nil) = omega arith
depth-flatten_qt_wrapper (node f (cons (node g ms) nil)) =
    elim (Bool-cases (is_wrapper (node g ms))) [
      | inl h ↦ rw h (omega (arith, depth_in-renumber 0 ms))
      | inr h ↦ rw h (omega arith)
    ]
depth-flatten_qt_wrapper (node f (cons m (cons n ms))) = omega arith

depth_in-le : (n : ℕ) (ms : List MenuItem) → All (λ m. depth m ≤ n) ms → depth_in (of_list ms) ≤ n
unfolding depth
depth_in-le n [] h = omega arith
depth_in-le n (m ∷ ms) (h, hs) = omega (arith, depth_in-le n ms hs)

-- A walk that starts at depth 0 returns a tree of at most four levels, the root's included.
pub depth-fetch_menu_tree :
    (w : World) (r : Ref) (m : MenuItem) → fetch_menu_tree w r 0 ≡ ok m → depth m ≤ 4
unfolding fetch_menu_tree
depth-fetch_menu_tree w r m e =
    of_returns (λ t. depth t ≤ 4) e
      (fetch_levels_inv w (λ _. Unit {0}) (λ _ _ _ _ _. tt) (λ n t. depth t ≤ suc n)
        (λ n i t h. omega (arith, depth-with_id i t)) (λ s _. unfold depth in omega arith)
        (λ n s ms _ h.
          unfold depth in
          omega
            (arith, depth-flatten_qt_wrapper (item (fields_of w s) ms), depth_in-le (suc n) ms h))
        3 r tt)
