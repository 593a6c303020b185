-- ===== src/Atspi/Fetch/Panics.antt =====
-- When the walk of bridge/src/atspi.rs panics: `Vec::with_capacity` of a negative count.
use noctalia_appmenu.Prelude.{
  ℕ, zero, suc, ◌-◌, ◌≡◌, refl, ◌↔◌, ◌⊎◌, inl, inr, ℤ, pos, negsuc, List, [], ◌∷◌, ◌++◌, arith, Any,
  if◌then◌else◌, Bool-cases,
}
use noctalia_appmenu.Atspi.World.{
  Outcome, ok, err, panic, ◌>>=◌, Ref, World, rounds, child_refs, child_count,
}
use noctalia_appmenu.Menu.Tree.{MenuItem, item}
use noctalia_appmenu.Menu.Flatten.{flatten_qt_wrapper}
use noctalia_appmenu.Atspi.Fetch.{
  fields_of, fetch_children, keep_child, reserve, fetch_levels, fetch_menu_tree, max_fetch_depth,
}
use noctalia_appmenu.Atspi.Find.Laws.{flat_map}

-- The accessible's number of children, 0 where it does not answer, is negative.
abbrev pub IsNegative : World → Ref → Type 0
IsNegative w r = (n : ℕ) × (child_count w r ≡ negsuc n)

-- The accessibles that a walk asks for their children, in preorder: those of the first `left`
-- levels whose proxies build, below such ones.
unfoldable pub reached : World → ℕ → Ref → List Ref
unfolding flat_map
reached w zero r = []
reached w (suc left) r =
    let below = flat_map (reached w left) (child_refs w r 0 (rounds (child_count w r))) in
    if w.builds r then r ∷ below else []

Any-append-left {ℓ} : {A : Type ℓ} (P : A → Type 0) (xs ys : List A) → Any P xs → Any P (xs ++ ys)
Any-append-left P [] ys h = absurd h
Any-append-left P (x ∷ xs) ys (inl h) = inl h
Any-append-left P (x ∷ xs) ys (inr h) = inr (Any-append-left P xs ys h)

Any-append-right {ℓ} : {A : Type ℓ} (P : A → Type 0) (xs ys : List A) → Any P ys → Any P (xs ++ ys)
Any-append-right P [] ys h = h
Any-append-right P (x ∷ xs) ys h = inr (Any-append-right P xs ys h)

Any-append {ℓ} :
    {A : Type ℓ} (P : A → Type 0) (xs ys : List A) → Any P (xs ++ ys) → Any P xs ⊎ Any P ys
Any-append P [] ys h = inr h
Any-append P (x ∷ xs) ys (inl h) = inl (inl h)
Any-append P (x ∷ xs) ys (inr h) = elim (Any-append P xs ys h) [
  | inl k ↦ inl (inr k)
  | inr k ↦ inr k
]

keep_child-panic :
    (i : ℕ) (got : Outcome MenuItem) (rest : Outcome (List MenuItem))
    → (keep_child i got rest ≡ panic) ↔ ((got ≡ panic) ⊎ (rest ≡ panic))
unfolding keep_child
keep_child-panic i (ok m) (ok ms) = ground arith
keep_child-panic i (ok m) err = ground arith
keep_child-panic i (ok m) panic = ground arith
keep_child-panic i err rest = ground arith
keep_child-panic i panic rest = ground arith

module _ (P : Ref → Type 0) (walk : Ref → Outcome MenuItem) (visit : Ref → List Ref)
    (each : (r : Ref) → (walk r ≡ panic) ↔ Any P (visit r)) where
  fetch_children-panic :
      (rs : List (ℕ × Ref)) → (fetch_children walk rs ≡ panic) ↔ Any P (flat_map visit rs)
  unfolding fetch_children flat_map
  fetch_children-panic [] = (λ e. absurd (cc), λ h. absurd h)
  fetch_children-panic ((i, c) ∷ rest) =
      let (to, from) = keep_child-panic i (walk c) (fetch_children walk rest) in
      let (to_rest, from_rest) = fetch_children-panic rest in
      (
        λ e. elim (to e) [
          | inl k ↦ Any-append-left P (visit c) (flat_map visit rest) ((each c).0 k)
          | inr k ↦ Any-append-right P (visit c) (flat_map visit rest) (to_rest k)
        ],
        λ h. elim (Any-append P (visit c) (flat_map visit rest) h) [
          | inl k ↦ from (inl ((each c).1 k))
          | inr k ↦ from (inr (from_rest k))
        ],
      )

-- The walk of one accessible, by its count and the walks of its children.
levels-panic :
    (count : ℤ) (found : Outcome (List MenuItem)) (grow : List MenuItem → MenuItem)
    → ((reserve count >>= λ _. found >>= λ ms. ok (grow ms)) ≡ panic)
      ↔ (((n : ℕ) × (count ≡ negsuc n)) ⊎ (found ≡ panic))
unfolding reserve
levels-panic (pos k) (ok ms) grow = ground arith
levels-panic (pos k) err grow = ground arith
levels-panic (pos k) panic grow = (λ e. inr refl, λ h. refl)
levels-panic (negsuc k) found grow = (λ e. inl (k, refl), λ h. refl)

module _ (w : World) where
  fetch_levels-panic :
      (left : ℕ) (r : Ref) → (fetch_levels w left r ≡ panic) ↔ Any (IsNegative w) (reached w left r)
  unfolding fetch_levels reached
  fetch_levels-panic zero r = (λ e. absurd (ground arith), λ h. absurd h)
  fetch_levels-panic (suc left) r = elim (Bool-cases (w.builds r)) [
    | inl b ↦
        let children = child_refs w r 0 (rounds (child_count w r)) in
        let (to, from) =
          levels-panic (child_count w r) (fetch_children (fetch_levels w left) children)
            (λ found. flatten_qt_wrapper (item (fields_of w r) found)) in
        let (to_children, from_children) =
          fetch_children-panic (IsNegative w) (fetch_levels w left) (reached w left)
            (fetch_levels-panic left) children in
        rw b (
          λ e. elim (to e) [ inl n ↦ inl n | inr k ↦ inr (to_children k) ],
          λ h. elim h [ inl n ↦ from (inl n) | inr k ↦ from (inr (from_children k)) ],
        )
    | inr b ↦ rw b (λ e. absurd (cc), λ h. absurd h)
  ]

-- A walk panics exactly where some accessible that it asks for its children, at any level above
-- the depth where they are no longer walked, answers with a negative number of them: the panic of
-- one accessible anywhere in the tree ends the whole walk, and nothing else does.
pub fetch_menu_tree-panic :
    (w : World) (r : Ref) (cur_depth : ℕ)
    → (fetch_menu_tree w r cur_depth ≡ panic)
      ↔ Any (IsNegative w) (reached w (max_fetch_depth - cur_depth) r)
unfolding fetch_menu_tree
fetch_menu_tree-panic w r cur_depth = fetch_levels-panic w (max_fetch_depth - cur_depth) r
