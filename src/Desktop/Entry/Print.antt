-- ===== src/Desktop/Entry/Print.antt =====
-- A `DesktopEntry` as a `.desktop` file, by the freedesktop specification: the groups with their
-- keys.
use noctalia_appmenu.Prelude.{
  ◌≡◌, false, List, [], ◌∷◌, ◌++◌, map, Option, none, some, All, is_empty, contains_char, text_eq,
  Text, codes,
}
use noctalia_appmenu.Prelude.Str.Split.Laws.{join_with, IsLine}
use noctalia_appmenu.Desktop.Entry.{DesktopAction, DesktopEntry}

-- A group of the file: its header, and its keys with their values.
abbrev pub Block : Type 0
Block = Text × List (Text × Text)

abbrev pub key_line : Text × Text → Text
key_line (key, value) = key ++ b'=' ∷ value

abbrev pub header_line : Text → Text
header_line h = b'[' ∷ (h ++ codes "]")

abbrev pub block_lines : Block → List Text
block_lines (h, keys) = header_line h ∷ map key_line keys

abbrev pub all_lines : List Block → List Text
all_lines [] = []
all_lines (b ∷ bs) = block_lines b ++ all_lines bs

abbrev pub action_header : Text → Text
action_header id = codes "Desktop Action " ++ id

abbrev pub action_block : DesktopAction → Block
action_block a = (
  action_header a.id,
  (codes "Name", a.name) ∷ (codes "Exec", a.exec) ∷ (codes "Icon", a.icon) ∷ [],
)

abbrev pub class_key : Option Text → List (Text × Text)
class_key none = []
class_key (some w) = (codes "StartupWMClass", w) ∷ []

abbrev pub actions_value : List DesktopAction → Text
actions_value actions = join_with b';' (map (λ a. a.id) actions)

abbrev pub entry_block : DesktopEntry → Block
entry_block e = (
  codes "Desktop Entry",
  (codes "Type", codes "Application")
      ∷ (codes "Name", e.name)
      ∷ (codes "Exec", e.exec)
      ∷ (codes "Icon", e.icon)
      ∷ (codes "Actions", actions_value e.actions)
      ∷ class_key e.startup_wm_class,
)

abbrev pub blocks : DesktopEntry → List Block
blocks e = entry_block e ∷ map action_block e.actions

unfoldable pub print : DesktopEntry → Text
print e = join_with b'\n' (all_lines (blocks e))

-- An action's id stands in a header and in the list of the actions; its other texts are values.
pub record IsPrintableAction (a : DesktopAction) : Type 0 where
  pub named : is_empty a.id ≡ false
  pub no_semicolon : contains_char b';' a.id ≡ false
  pub id : IsLine a.id
  pub name : IsLine a.name
  pub exec : IsLine a.exec
  pub icon : IsLine a.icon

-- No two actions have the same id.
abbrev pub IsDistinct : List DesktopAction → Type 0
IsDistinct [] = Unit
IsDistinct (a ∷ rest) = All (λ b. text_eq a.id b.id ≡ false) rest × IsDistinct rest

abbrev pub IsPrintableClass : Option Text → Type 0
IsPrintableClass none = Unit
IsPrintableClass (some w) = IsLine w

-- Every value is one line with no whitespace at its ends, and the actions' ids are distinct.
pub record IsPrintable (e : DesktopEntry) : Type 0 where
  pub name : IsLine e.name
  pub exec : IsLine e.exec
  pub icon : IsLine e.icon
  pub startup_wm_class : IsPrintableClass e.startup_wm_class
  pub actions : All IsPrintableAction e.actions
  pub distinct : IsDistinct e.actions
