-- ===== src/Desktop/Entry.antt =====
-- `DesktopEntry`, and the parsing of a `.desktop` file. The environment is a parameter: what
-- `std::env::var` gives for a name, if it is set to a text.
pub mod Print
pub mod Lines
pub mod RoundTrip
pub mod Displayable
use noctalia_appmenu.Prelude.{
  ℕ, Bool, true, false, not, ◌||◌, List, [], ◌∷◌, ◌++◌, map, Option, none, some, if◌then◌else◌,
  is_empty, find, retain, text_eq, trim, strip_prefix, strip_suffix, starts_with, Text, codes,
}
use noctalia_appmenu.Prelude.Str.Split.{split, split_once, lines}
use noctalia_appmenu.Prelude.Map.{Map, empty_map, insert, text_key}
use mathlib.Core.Option

pub record DesktopAction : Type 0 where
  pub id : Text
  pub name : Text
  pub exec : Text
  pub icon : Text

pub record DesktopEntry : Type 0 where
  pub id : Text
  pub name : Text
  pub exec : Text
  pub icon : Text
  pub startup_wm_class : Option Text
  pub actions : List DesktopAction

abbrev pub Env : Type 0
Env = Text → Option Text

-- a variable that is set to something
abbrev pub non_empty_var : Env → Text → Option Text
non_empty_var env v = elim (env v) [ none ↦ none | some s ↦ if is_empty s then none else some s ]

-- the first part of a split, `split(c).next().unwrap_or("")`
abbrev pub first_part : ℕ → Text → Text
first_part c s = elim (split c s) [ [] ↦ [] | part ∷ parts ↦ part ]

unfoldable pub parse_locale_prefs : Text → List Text
parse_locale_prefs raw =
    let base = trim (first_part b'@' (first_part b'.' raw)) in
    if is_empty base || (text_eq base (codes "C") || text_eq base (codes "POSIX"))
    then []
    else elim (split_once b'_' base) [ none ↦ base ∷ [] | some p ↦ base ∷ p.0 ∷ [] ]

unfoldable pub locale_prefs : Env → List Text
locale_prefs env = parse_locale_prefs (elim (non_empty_var env (codes "LC_MESSAGES")) [
  | some s ↦ s
  | none ↦ elim (non_empty_var env (codes "LC_ALL")) [
    | some s ↦ s
    | none ↦ Option.get_or (non_empty_var env (codes "LANG")) []
  ]
])

abbrev pub Keys : Type 0
Keys = Map Text Text

-- A group header and its keys.
abbrev pub Group : Type 0
Group = Text × Keys

unfoldable pub locale_name : Keys → List Text → Text
locale_name group [] = Option.get_or (group (codes "Name")) []
locale_name group (p ∷ ps) =
    let rest = locale_name group ps in
    elim (group (codes "Name[" ++ (p ++ codes "]"))) [
      | none ↦ rest
      | some v ↦ if is_empty v then rest else v
    ]

-- `line.strip_prefix('[').and_then(|s| s.strip_suffix(']'))`
unfoldable pub header_of : Text → Option Text
header_of line = elim (strip_prefix (codes "[") line) [
  | none ↦ none
  | some s ↦ strip_suffix (codes "]") s
]

-- `entry(key).or_insert_with(value)`: the first value of a key wins.
unfoldable pub or_insert : Text → Text → Keys → Keys
or_insert key value keys = elim (keys key) [ none ↦ insert key value keys | some old ↦ keys ]

-- a key in the last group, if there is one
unfoldable pub add_key : Text → Text → List Group → List Group
add_key key value [] = []
add_key key value (g ∷ []) = (g.0, or_insert key value g.1) ∷ []
add_key key value (g ∷ h ∷ gs) = g ∷ add_key key value (h ∷ gs)

-- One line of the file.
unfoldable pub add_line : List Group → Text → List Group
add_line groups raw =
    let line = trim raw in
    if is_empty line || starts_with (codes "#") line then groups else elim (header_of line) [
      | some header ↦ groups ++ (header, empty_map) ∷ []
      | none ↦ elim (split_once b'=' line) [
        | none ↦ groups
        | some p ↦ add_key (trim p.0) (trim p.1) groups
      ]
    ]

unfoldable pub add_lines : List Group → List Text → List Group
add_lines groups [] = groups
add_lines groups (raw ∷ rest) = add_lines (add_line groups raw) rest

abbrev pub group_named : Text → List Group → Option Group
group_named header = find (λ g. text_eq g.0 header)

unfoldable pub lookup_action : List Group → List Text → Text → Option DesktopAction
lookup_action groups prefs aid = elim (group_named (codes "Desktop Action " ++ aid) groups) [
  | none ↦ none
  | some g ↦ some (record {
    id = aid;
    name = locale_name g.1 prefs;
    exec = Option.get_or (g.1 (codes "Exec")) [];
    icon = Option.get_or (g.1 (codes "Icon")) [];
  })
]

-- `filter_map(lookup_action).collect()`
unfoldable pub lookup_actions : List Group → List Text → List Text → List DesktopAction
lookup_actions groups prefs [] = []
lookup_actions groups prefs (aid ∷ rest) = elim (lookup_action groups prefs aid) [
  | none ↦ lookup_actions groups prefs rest
  | some a ↦ a ∷ lookup_actions groups prefs rest
]

-- The ids of `Actions=a;b;c;`.
unfoldable pub action_order : Option Text → List Text
action_order none = []
action_order (some s) = retain (λ t. not (is_empty t)) (map trim (split b';' s))

-- The ids of the `[Desktop Action …]` groups, in file order.
unfoldable pub action_groups : List Group → List Text
action_groups [] = []
action_groups (g ∷ gs) = elim (strip_prefix (codes "Desktop Action ") g.0) [
  | none ↦ action_groups gs
  | some aid ↦ aid ∷ action_groups gs
]

-- The entry of the groups, with the `[Desktop Entry]` group's keys.
unfoldable pub entry_of : List Text → Text → List Group → Keys → DesktopEntry
entry_of prefs id groups keys =
    let order = action_order (keys (codes "Actions")) in
    let listed = if is_empty order then action_groups groups else order in
    record {
      id = id;
      name = locale_name keys prefs;
      exec = Option.get_or (keys (codes "Exec")) [];
      icon = Option.get_or (keys (codes "Icon")) [];
      startup_wm_class = keys (codes "StartupWMClass");
      actions = lookup_actions groups prefs listed;
    }

-- whether the group is an application's: `Type` is absent, or `Application`
abbrev pub is_application : Keys → Bool
is_application keys = elim (keys (codes "Type")) [
  | none ↦ true
  | some ty ↦ text_eq ty (codes "Application")
]

unfoldable pub parse_entry : Env → Text → Text → Option DesktopEntry
parse_entry env content id =
    let groups = add_lines [] (lines content) in
    elim (group_named (codes "Desktop Entry") groups) [
      | none ↦ none
      | some g ↦
          if is_application g.1 then some (entry_of (locale_prefs env) id groups g.1) else none
    ]

-- The flags of `is_displayable`.
pub record Flags : Type 0 where
  pub in_entry : Bool
  pub no_display : Bool
  pub hidden : Bool

unfoldable pub flag_line : Flags → Text → Flags
flag_line f raw =
    let line = trim raw in
    elim (header_of line) [
      | some h ↦ record f { in_entry = text_eq h (codes "Desktop Entry") }
      | none ↦
          if not f.in_entry
          then f
          else if text_eq line (codes "NoDisplay=true")
          then record f { no_display = true }
          else if text_eq line (codes "Hidden=true")
          then record f { hidden = true }
          else f
    ]

unfoldable pub flag_lines : Flags → List Text → Flags
flag_lines f [] = f
flag_lines f (raw ∷ rest) = flag_lines (flag_line f raw) rest

unfoldable pub is_displayable : Text → Bool
is_displayable content =
    let f =
      flag_lines (record { in_entry = false; no_display = false; hidden = false })
        (lines content) in
    not (f.no_display || f.hidden)
