-- ===== src/Desktop/Entry/RoundTrip.antt =====
-- A printed entry is read back.
use noctalia_appmenu.Prelude.{
  ◌≡◌, refl, sym, ap, ◌∙◌, inl, inr, true, false, not, List, [], ◌∷◌, ◌++◌, map, Option, none, some,
  if◌then◌else◌, All, Any, find, retain, is_empty, contains_char, text_eq, is_whitespace, trim,
  strip_prefix, Text, codes,
}
use mathlib.Core.Path.{subst}
use noctalia_appmenu.Prelude.Str.Laws.{text_eq_refl}
use noctalia_appmenu.Prelude.Str.Bare.{trim-IsBare, IsBare-append}
use noctalia_appmenu.Prelude.Str.Split.{lines}
use noctalia_appmenu.Prelude.Str.Split.Laws.{
  split-join_with, contains_char-append, join_with, IsLine, lines-join_with,
}
use noctalia_appmenu.Desktop.Entry.{
  DesktopAction, DesktopEntry, Env, Keys, Group, locale_name, locale_prefs, or_insert, add_lines,
  group_named, lookup_action, lookup_actions, action_order, action_groups, entry_of, is_application,
  parse_entry,
}
use noctalia_appmenu.Desktop.Entry.Print.{
  all_lines, action_header, action_block, class_key, actions_value, entry_block, blocks, print,
  IsPrintableAction, IsPrintableClass, IsDistinct, IsPrintable,
}
use noctalia_appmenu.Desktop.Entry.Lines.{
  IsPair, IsBlock, keys_from, group_of, add_lines-all_lines, all_lines-IsLine, Type-IsKey,
  Name-IsKey, Exec-IsKey, Icon-IsKey, Actions-IsKey, StartupWMClass-IsKey,
}

-- The printed blocks are lines.
action_block-IsBlock : (a : DesktopAction) → IsPrintableAction a → IsBlock (action_block a)
action_block-IsBlock a h = (
  contains_char-append b'\n' (codes "Desktop Action ") a.id refl h.id.0,
  ((Name-IsKey, h.name), ((Exec-IsKey, h.exec), ((Icon-IsKey, h.icon), tt))),
)

action_blocks-IsBlock :
    (actions : List DesktopAction)
    → All IsPrintableAction actions
    → All IsBlock (map action_block actions)
action_blocks-IsBlock [] h = tt
action_blocks-IsBlock (a ∷ rest) (h, hs) = (action_block-IsBlock a h, action_blocks-IsBlock rest hs)

actions_value-IsLine :
    (actions : List DesktopAction) → All IsPrintableAction actions → IsLine (actions_value actions)
unfolding join_with is_whitespace
actions_value-IsLine [] h = (refl, (tt, tt))
actions_value-IsLine (a ∷ rest) (h, hs) =
    let (n, bare) = actions_value-IsLine rest hs in
    (
      contains_char-append b'\n' a.id (b';' ∷ actions_value rest) h.id.0 n,
      IsBare-append a.id (actions_value rest) b';' refl h.id.1.0 bare,
    )

class_key-IsPair : (w : Option Text) → IsPrintableClass w → All IsPair (class_key w)
class_key-IsPair none h = tt
class_key-IsPair (some w) h = ((StartupWMClass-IsKey, h), tt)

pub blocks-IsBlock : (e : DesktopEntry) → IsPrintable e → All IsBlock (blocks e)
unfolding is_whitespace
blocks-IsBlock e h = (
  (
    refl,
    (
      (Type-IsKey, (refl, (refl, refl))),
      (
        (Name-IsKey, h.name),
        (
          (Exec-IsKey, h.exec),
          (
            (Icon-IsKey, h.icon),
            (
              (Actions-IsKey, actions_value-IsLine e.actions h.actions),
              class_key-IsPair e.startup_wm_class h.startup_wm_class,
            ),
          ),
        ),
      ),
    ),
  ),
  action_blocks-IsBlock e.actions h.actions,
)

-- The groups that are read.
read_groups :
    (e : DesktopEntry) → IsPrintable e → add_lines [] (lines (print e)) ≡ map group_of (blocks e)
unfolding print
read_groups e h =
    let ok = blocks-IsBlock e h in
    ap (add_lines []) (lines-join_with (all_lines (blocks e)) (all_lines-IsLine (blocks e) ok))
    ∙ add_lines-all_lines [] (blocks e) ok

-- With no localised name, the name is the one key's.
locale_name-Name :
    (m : Keys) (name : Text) (prefs : List Text)
    → m (codes "Name") ≡ some name
    → ((p : Text) → m (codes "Name[" ++ (p ++ codes "]")) ≡ none)
    → locale_name m prefs ≡ name
unfolding locale_name
locale_name-Name m name [] e n = rw e refl
locale_name-Name m name (p ∷ prefs) e n = rw (n p, locale_name) (locale_name-Name m name prefs e n)

-- The ids that are listed.
ids_read :
    (actions : List DesktopAction)
    → All IsPrintableAction actions
    → retain (λ t. not (is_empty t)) (map trim (map (λ a. a.id) actions ++ [] ∷ []))
      ≡ map (λ a. a.id) actions
unfolding retain trim
ids_read [] h = refl
ids_read (a ∷ rest) (h, hs) =
    rw (trim-IsBare a.id h.id.1, h.named) (ap (◌∷◌ a.id) (ids_read rest hs))

semicolon_free :
    (actions : List DesktopAction)
    → All IsPrintableAction actions
    → All (λ s. contains_char b';' s ≡ false) (map (λ a. a.id) actions)
semicolon_free [] h = tt
semicolon_free (a ∷ rest) (h, hs) = (h.no_semicolon, semicolon_free rest hs)

action_order-actions_value :
    (actions : List DesktopAction)
    → All IsPrintableAction actions
    → action_order (some (actions_value actions)) ≡ map (λ a. a.id) actions
unfolding action_order
action_order-actions_value actions h =
    ap (λ ss. retain (λ t. not (is_empty t)) (map trim ss))
      (split-join_with b';' (map (λ a. a.id) actions) (semicolon_free actions h))
    ∙ ids_read actions h

-- The group of an action is found by its id.
pub from_All :
    {A : Type 0} (P : A → Type 0) (x : A) (xs : List A) → All P xs → Any (λ y. x ≡ y) xs → P x
from_All P x [] h k = absurd k
from_All P x (y ∷ ys) (h, hs) (inl e) = subst P (sym e) h
from_All P x (y ∷ ys) (h, hs) (inr k) = from_All P x ys hs k

abbrev action_groups_of : List DesktopAction → List Group
action_groups_of actions = map group_of (map action_block actions)

find_group :
    (a : DesktopAction) (actions : List DesktopAction)
    → IsDistinct actions
    → Any (λ b. a ≡ b) actions
    → group_named (action_header a.id) (action_groups_of actions) ≡ some (group_of (action_block a))
unfolding find text_eq
find_group a [] d k = absurd k
find_group a (b ∷ rest) d (inl e) =
    subst
      (λ c.
        group_named (action_header c.id) (action_groups_of (b ∷ rest))
        ≡ some (group_of (action_block c)))
      (sym e) (rw (text_eq_refl b.id) refl)
find_group a (b ∷ rest) (d, ds) (inr k) =
    rw (from_All (λ c. text_eq b.id c.id ≡ false) a rest d k) (find_group a rest ds k)

module _ (e : DesktopEntry) (h : IsPrintable e) (prefs : List Text) where
  found :
      (a : DesktopAction)
      → Any (λ b. a ≡ b) e.actions
      → group_named (action_header a.id) (map group_of (blocks e))
        ≡ some (group_of (action_block a))
  unfolding find text_eq
  found a k = find_group a e.actions h.distinct k

  action_name : (a : DesktopAction) → locale_name (group_of (action_block a)).1 prefs ≡ a.name
  unfolding text_eq keys_from or_insert
  action_name a = locale_name-Name (group_of (action_block a)).1 a.name prefs refl (λ p. refl)

  action_keys :
      (a : DesktopAction)
      → ((group_of (action_block a)).1 (codes "Exec") ≡ some a.exec)
        × ((group_of (action_block a)).1 (codes "Icon") ≡ some a.icon)
  unfolding text_eq keys_from or_insert
  action_keys a = (refl, refl)

  lookup_action-actions :
      (a : DesktopAction)
      → Any (λ b. a ≡ b) e.actions
      → lookup_action (map group_of (blocks e)) prefs a.id ≡ some a
  unfolding lookup_action
  lookup_action-actions a k =
      rw (lookup_action, found a k, action_name a, (action_keys a).0, (action_keys a).1) refl

  lookup_actions-actions :
      (actions : List DesktopAction)
      → ((a : DesktopAction) → Any (λ b. a ≡ b) actions → Any (λ b. a ≡ b) e.actions)
      → lookup_actions (map group_of (blocks e)) prefs (map (λ a. a.id) actions) ≡ actions
  unfolding lookup_actions
  lookup_actions-actions [] sub = refl
  lookup_actions-actions (a ∷ rest) sub =
      rw (lookup_actions, lookup_action-actions a (sub a (inl refl)))
        (ap (◌∷◌ a) (lookup_actions-actions rest (λ b k. sub b (inr k))))

abbrev entry_keys : DesktopEntry → Keys
entry_keys e = (group_of (entry_block e)).1

record HasKeys (e : DesktopEntry) : Type 0 where
  type_is : entry_keys e (codes "Type") ≡ some (codes "Application")
  name_is : entry_keys e (codes "Name") ≡ some e.name
  exec_is : entry_keys e (codes "Exec") ≡ some e.exec
  icon_is : entry_keys e (codes "Icon") ≡ some e.icon
  actions_are : entry_keys e (codes "Actions") ≡ some (actions_value e.actions)
  class_is : entry_keys e (codes "StartupWMClass") ≡ e.startup_wm_class
  no_locale : (p : Text) → entry_keys e (codes "Name[" ++ (p ++ codes "]")) ≡ none

entry_block-keys :
    (e : DesktopEntry) (w : Option Text) → HasKeys (record e { startup_wm_class = w })
unfolding text_eq keys_from or_insert
entry_block-keys e none = record {
  type_is = refl;
  name_is = refl;
  exec_is = refl;
  icon_is = refl;
  actions_are = refl;
  class_is = refl;
  no_locale = λ p. refl;
}
entry_block-keys e (some w) = record {
  type_is = refl;
  name_is = refl;
  exec_is = refl;
  icon_is = refl;
  actions_are = refl;
  class_is = refl;
  no_locale = λ p. refl;
}

entry_group :
    (e : DesktopEntry)
    → group_named (codes "Desktop Entry") (map group_of (blocks e))
      ≡ some (group_of (entry_block e))
unfolding find text_eq
entry_group e = refl

-- With no action listed there is no action's group.
listed_ids :
    (keys : Keys) (actions : List DesktopAction)
    → (if is_empty (map (λ a. a.id) actions)
        then action_groups ((codes "Desktop Entry", keys) ∷ action_groups_of actions)
        else map (λ a. a.id) actions)
      ≡ map (λ a. a.id) actions
unfolding action_groups strip_prefix
listed_ids keys [] = refl
listed_ids keys (a ∷ rest) = refl

has_keys : (e : DesktopEntry) → HasKeys e
has_keys e = entry_block-keys e e.startup_wm_class

entry_of-print :
    (e : DesktopEntry) (prefs : List Text)
    → IsPrintable e
    → entry_of prefs e.id (map group_of (blocks e)) (entry_keys e) ≡ e
unfolding entry_of
entry_of-print e prefs h =
    let keys = has_keys e in
    rw
      (
        entry_of,
        locale_name-Name (entry_keys e) e.name prefs keys.name_is keys.no_locale,
        keys.exec_is,
        keys.icon_is,
        keys.class_is,
        keys.actions_are,
        action_order-actions_value e.actions h.actions,
        listed_ids (entry_keys e) e.actions,
        lookup_actions-actions e h prefs e.actions (λ a k. k),
      )
      refl

is_application-print : (e : DesktopEntry) → is_application (entry_keys e) ≡ true
unfolding text_eq
is_application-print e = rw (is_application, (has_keys e).type_is) refl

-- A file printed from an entry by the specification is read back as that very entry, whatever the
-- locale: its name, command, icon and class, and its actions in their order. (The values have no
-- line end and no whitespace at their ends, and the actions have distinct ids, not empty and
-- without semicolons.)
pub parse_entry-print :
    (env : Env) (e : DesktopEntry) → IsPrintable e → parse_entry env (print e) e.id ≡ some e
unfolding parse_entry
parse_entry-print env e h =
    rw
      (
        parse_entry,
        read_groups e h,
        entry_group e,
        is_application-print e,
        read_groups e h,
        entry_of-print e (locale_prefs env) h,
      )
      refl
