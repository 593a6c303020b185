-- ===== src/Menu/Tree.antt =====
-- The struct `MenuItem`. Its `children` is a list of the type itself, so the tree is two data
-- types in one block, beside a record of the other fields. An `i32` stands by its bit pattern.
use noctalia_appmenu.Prelude.{ℕ, ◌≡◌, refl, ap, Bool, false, List, [], ◌∷◌, Text}

pub record MenuFields : Type 0 where
  pub id : ℕ
  pub label : Text
  pub item_type : Text
  pub enabled : Bool
  pub visible : Bool
  pub icon_name : Text
  pub toggle_type : Text
  pub toggle_state : ℕ
  pub service : Text
  pub path : Text

mutual
  pub data MenuItem : Type 0 where
    node : MenuFields → MenuItems → MenuItem

  pub data MenuItems : Type 0 where
    nil : MenuItems
    cons : MenuItem → MenuItems → MenuItems

-- `MenuItem::default()`, without the children
abbrev pub blank : MenuFields
blank = record {
  id = 0;
  label = [];
  item_type = [];
  enabled = false;
  visible = false;
  icon_name = [];
  toggle_type = [];
  toggle_state = 0;
  service = [];
  path = [];
}

abbrev pub to_list : MenuItems → List MenuItem
to_list nil = []
to_list (cons m ms) = m ∷ to_list ms

abbrev pub of_list : List MenuItem → MenuItems
of_list [] = nil
of_list (m ∷ ms) = cons m (of_list ms)

abbrev pub fields : MenuItem → MenuFields
fields (node f ms) = f

abbrev pub children : MenuItem → List MenuItem
children (node f ms) = to_list ms

-- An item from its fields and its children.
abbrev pub item : MenuFields → List MenuItem → MenuItem
item f ms = node f (of_list ms)

-- `m.id = i`
abbrev pub with_id : ℕ → MenuItem → MenuItem
with_id i (node f ms) = node (record f { id = i }) ms

pub to_list-of_list : (ms : List MenuItem) → to_list (of_list ms) ≡ ms
to_list-of_list [] = refl
to_list-of_list (m ∷ ms) = ap (◌∷◌ m) (to_list-of_list ms)

pub of_list-to_list : (ms : MenuItems) → of_list (to_list ms) ≡ ms
of_list-to_list nil = refl
of_list-to_list (cons m ms) = ap (cons m) (of_list-to_list ms)

-- A property of the node itself and of every node below it.
abbrev mutual
  pub Everywhere : (MenuItem → Type 0) → MenuItem → Type 0
  Everywhere P (node f ms) = P (node f ms) × EverywhereIn P ms

  pub EverywhereIn : (MenuItem → Type 0) → MenuItems → Type 0
  EverywhereIn P nil = Unit
  EverywhereIn P (cons m ms) = Everywhere P m × EverywhereIn P ms

-- A property that follows from another at each node.
mutual
  pub map-Everywhere :
      {P Q : MenuItem → Type 0}
      → ((n : MenuItem) → P n → Q n)
      → (m : MenuItem) → Everywhere P m
      → Everywhere Q m
  map-Everywhere f (node g ms) (h, hs) = (f (node g ms) h, map-EverywhereIn f ms hs)

  map-EverywhereIn :
      {P Q : MenuItem → Type 0}
      → ((n : MenuItem) → P n → Q n)
      → (ms : MenuItems) → EverywhereIn P ms
      → EverywhereIn Q ms
  map-EverywhereIn f nil h = tt
  map-EverywhereIn f (cons m ms) (h, hs) = (map-Everywhere f m h, map-EverywhereIn f ms hs)
