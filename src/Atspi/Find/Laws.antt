-- ===== src/Atspi/Find/Laws.antt =====
-- The search finds the first menubar in preorder, and nothing but a menubar below the start.
use noctalia_appmenu.Prelude.{
  ℕ, zero, suc, ◌≡◌, refl, inl, inr, Bool, true, List, [], ◌∷◌, ◌++◌, Option, none, some, arith,
  find, All, Bool-cases, Option-cases,
}
use noctalia_appmenu.Atspi.World.{
  Outcome, ok, err, panic, Ref, World, rounds, child_refs, child_count,
}
use noctalia_appmenu.Atspi.Fetch.{menu_bar}
use noctalia_appmenu.Atspi.Fetch.Rule.{child_refs-All}
use noctalia_appmenu.Atspi.Fetch.Origin.{Below, itself, child}
use noctalia_appmenu.Atspi.Find.{is_menubar, find_among, find_levels, find_menubar}

-- All that the visits of the listed accessibles give, in order.
unfoldable pub flat_map : (Ref → List Ref) → List (ℕ × Ref) → List Ref
flat_map visit [] = []
flat_map visit (c ∷ rest) = visit c.1 ++ flat_map visit rest

-- The accessibles of the first `left` levels, each before its children.
unfoldable pub preorder : World → ℕ → Ref → List Ref
unfolding flat_map
preorder w zero r = []
preorder w (suc left) r =
    r ∷ flat_map (preorder w left) (child_refs w r 0 (rounds (child_count w r)))

find-append {ℓ} :
    {A : Type ℓ} (p : A → Bool) (xs ys : List A)
    → find p (xs ++ ys) ≡ elim (find p xs) [ some x ↦ some x | none ↦ find p ys ]
unfolding find
find-append p [] ys = refl
find-append p (x ∷ xs) ys = elim (Bool-cases (p x)) [
  | inl h ↦ rw h refl
  | inr h ↦ rw h (find-append p xs ys)
]

find_among-flat_map :
    (w : World) (search_at : Ref → Outcome (Option Ref)) (visit : Ref → List Ref)
    → ((r : Ref) → search_at r ≡ ok (find (is_menubar w) (visit r)))
    → (rs : List (ℕ × Ref)) → find_among search_at rs ≡ ok (find (is_menubar w) (flat_map visit rs))
unfolding find_among flat_map find
find_among-flat_map w search_at visit h [] = refl
find_among-flat_map w search_at visit h (c ∷ rest) =
    elim (Option-cases (find (is_menubar w) (visit c.1))) [
      | inl e ↦
          rw (h c.1, find-append, e, find_among) (find_among-flat_map w search_at visit h rest)
      | inr (x, e) ↦ rw (h c.1, find-append, e, find_among) refl
    ]

find_levels-preorder :
    (w : World)
    → ((r : Ref) → w.builds r ≡ true)
    → (left : ℕ) (r : Ref) → find_levels w left r ≡ ok (find (is_menubar w) (preorder w left r))
unfolding find_levels preorder find
find_levels-preorder w b zero r = refl
find_levels-preorder w b (suc left) r = elim (Bool-cases (is_menubar w r)) [
  | inl h ↦ rw (b r, h) refl
  | inr h ↦
      rw (b r, h)
        (find_among-flat_map w (find_levels w left) (preorder w left)
          (find_levels-preorder w b left) (child_refs w r 0 (rounds (child_count w r))))
]

-- Where every proxy can be built, the search returns the first menubar in preorder among the
-- accessibles less than eight levels below the start, and `None` exactly when there is none.
pub find_menubar-preorder :
    (w : World) (r : Ref)
    → ((s : Ref) → w.builds s ≡ true)
    → find_menubar w r 0 ≡ ok (find (is_menubar w) (preorder w 8 r))
unfolding find_menubar
find_menubar-preorder w r b = find_levels-preorder w b 8 r

-- What a search promises of the accessible that it returns.
abbrev pub Found : World → Ref → Ref → Type 0
Found w root r = Below w root r × (w.get_role r ≡ some menu_bar)

is_menubar_sound : (w : World) (r : Ref) → is_menubar w r ≡ true → w.get_role r ≡ some menu_bar
is_menubar_sound w r h = ground arith

find_among-Found :
    (w : World) (root : Ref) (search_at : Ref → Outcome (Option Ref))
    → ((r f : Ref) → Below w root r → search_at r ≡ ok (some f) → Found w root f)
    → (rs : List (ℕ × Ref)) (f : Ref) → All (λ c. Below w root c.1) rs
    → find_among search_at rs ≡ ok (some f)
    → Found w root f
unfolding find_among
find_among-Found w root search_at h [] f k e = absurd (cc)
find_among-Found w root search_at h (c ∷ rest) f (k, ks) e =
    split (search_at c.1) refl (find_among-Found w root search_at h rest f ks)
  where
    split :
        (got : Outcome (Option Ref))
        → search_at c.1 ≡ got
        → (find_among search_at rest ≡ ok (some f) → Found w root f)
        → Found w root f
    split (ok (some x)) g later = h c.1 f k (ground arith)
    split (ok none) g later = later (ground arith)
    split err g later = absurd (ground arith)
    split panic g later = absurd (ground arith)

find_levels-Found :
    (w : World) (root : Ref) (left : ℕ) (r f : Ref)
    → Below w root r
    → find_levels w left r ≡ ok (some f)
    → Found w root f
unfolding find_levels
find_levels-Found w root zero r f k e = absurd (ground arith)
find_levels-Found w root (suc left) r f k e = elim (Bool-cases (w.builds r)) [
  | inl b ↦ elim (Bool-cases (is_menubar w r)) [
    | inl m ↦ let same : r ≡ f = ground arith in rw (← same) (k, is_menubar_sound w r m)
    | inr m ↦
        find_among-Found w root (find_levels w left) (find_levels-Found w root left)
          (child_refs w r 0 (rounds (child_count w r))) f
          (child_refs-All w (Below w root) (λ s c i p a. child i p a) r 0 (rounds (child_count w r))
            k)
          (ground arith)
  ]
  | inr b ↦ absurd (ground arith)
]

-- What the search returns has the role of a menubar and stands below the start, whatever the
-- applications answer.
pub find_menubar-Found :
    (w : World) (r f : Ref) (cur_depth : ℕ) → find_menubar w r cur_depth ≡ ok (some f) → Found w r f
unfolding find_menubar
find_menubar-Found w r f cur_depth e = find_levels-Found w r _ r f itself e
