-- ===== src/Atspi/Fetch/Rule.antt =====
-- The induction behind the properties of a walk: a set of accessibles closed under children, and
-- a property of trees, level by level.
use noctalia_appmenu.Prelude.{
  ℕ, zero, suc, ◌≡◌, inl, inr, List, [], ◌∷◌, some, All, Bool-cases, Option-cases,
}
use noctalia_appmenu.Menu.Tree.{MenuItem, item, with_id}
use noctalia_appmenu.Menu.Flatten.{flatten_qt_wrapper}
use noctalia_appmenu.Atspi.World.{
  Outcome, ok, err, panic, ◌>>=◌, Ref, World, rounds, child_refs, child_count,
}
use noctalia_appmenu.Atspi.Fetch.{fields_of, fetch_children, keep_child, reserve, fetch_levels}

-- A predicate on what a walk returns, if it returns.
abbrev pub Returns {ℓ} : {A : Type ℓ} → (A → Type 0) → Outcome A → Type 0
Returns P (ok a) = P a
Returns P err = Unit
Returns P panic = Unit

module _ (walk : Ref → Outcome MenuItem) (K : Ref → Type 0) (P : MenuItem → Type 0)
    (kept : (i : ℕ) (m : MenuItem) → P m → P (with_id i m))
    (each : (r : Ref) → K r → Returns P (walk r)) where
  fetch_children-All :
      (rs : List (ℕ × Ref)) → All (λ c. K c.1) rs → Returns (All P) (fetch_children walk rs)
  unfolding fetch_children keep_child
  fetch_children-All [] h = tt
  fetch_children-All ((i, c) ∷ rest) (h, hs) =
      keep (walk c) (fetch_children walk rest) (each c h) (fetch_children-All rest hs)
    where
      keep :
          (child : Outcome MenuItem) (others : Outcome (List MenuItem))
          → Returns P child
          → Returns (All P) others
          → Returns (All P) (keep_child i child others)
      keep (ok m) (ok ms) h k = (kept i m h, k)
      keep (ok m) err h k = tt
      keep (ok m) panic h k = tt
      keep err others h k = k
      keep panic others h k = tt

module _ (w : World) (K : Ref → Type 0)
    (closed : (r c : Ref) (i : ℕ) → K r → w.get_child_at_index r i ≡ some c → K c) where
  pub child_refs-All : (r : Ref) (i n : ℕ) → K r → All (λ c. K c.1) (child_refs w r i n)
  unfolding child_refs
  child_refs-All r i zero k = tt
  child_refs-All r i (suc n) k = elim (Option-cases (w.get_child_at_index r i)) [
    | inl e ↦ rw (e, child_refs) (child_refs-All r (suc i) n k)
    | inr (c, e) ↦ rw (e, child_refs) (closed r c i k e, child_refs-All r (suc i) n k)
  ]

  module _ (P : ℕ → MenuItem → Type 0) (kept : (n i : ℕ) (m : MenuItem) → P n m → P n (with_id i m))
      (leaf : (r : Ref) → K r → P zero (item (fields_of w r) []))
      (grow : (n : ℕ) (r : Ref) (ms : List MenuItem)
        → K r
        → All (P n) ms
        → P (suc n) (flatten_qt_wrapper (item (fields_of w r) ms))) where
    pub fetch_levels_inv : (left : ℕ) (r : Ref) → K r → Returns (P left) (fetch_levels w left r)
    unfolding fetch_levels
    fetch_levels_inv zero r k = elim (Bool-cases (w.builds r)) [
      | inl b ↦ rw b (leaf r k)
      | inr b ↦ rw b tt
    ]
    fetch_levels_inv (suc left) r k = elim (Bool-cases (w.builds r)) [
      | inl b ↦ rw b (
          grown (reserve (child_count w r))
            (fetch_children (fetch_levels w left) (child_refs w r 0 (rounds (child_count w r))))
            (fetch_children-All (fetch_levels w left) K (P left) (kept left) (fetch_levels_inv left)
              (child_refs w r 0 (rounds (child_count w r)))
              (child_refs-All r 0 (rounds (child_count w r)) k)))
      | inr b ↦ rw b tt
    ]
      where
        grown :
            (space : Outcome (Unit {0})) (found : Outcome (List MenuItem))
            → Returns (All (P left)) found
            → Returns
                (P (suc left))
                (space >>= λ _. found >>= λ ms. ok (flatten_qt_wrapper (item (fields_of w r) ms)))
        grown (ok _) (ok ms) h = grow left r ms k h
        grown (ok _) err h = tt
        grown (ok _) panic h = tt
        grown err found h = tt
        grown panic found h = tt
