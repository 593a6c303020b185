-- ===== src/Proxy/Write.antt =====
-- `MenuSource`, `is_lazy_unreadable` and `write_active_json`. `serde_json` is a parameter: the text
-- of a payload.
pub mod Laws
use noctalia_appmenu.Prelude.{
  ℕ, Bool, true, false, not, ◌&&◌, List, [], ◌∷◌, ◌++◌, Option, none, some, if◌then◌else◌, is_empty,
  all, text_eq, Text, codes,
}
use mathlib.Core.Option
use noctalia_appmenu.Menu.Tree.{MenuItem, children}
use noctalia_appmenu.Active.Snapshot.{ActiveSnapshot}

pub data MenuSource : Type 0 where
  atspi : MenuSource
  synthetic : MenuSource
  desktop_fallback : MenuSource
  empty : MenuSource

unfoldable pub as_str : MenuSource → Text
as_str atspi = codes "atspi"
as_str synthetic = codes "synthetic"
as_str desktop_fallback = codes "desktop-fallback"
as_str empty = codes "empty"

unfoldable pub is_lazy_unreadable : MenuItem → Bool
is_lazy_unreadable menu =
    not (is_empty (children menu)) && all (λ c. is_empty (children c)) (children menu)

-- The members of the JSON object.
pub record Payload : Type 0 where
  pub v : ℕ
  pub focus_pid : ℕ
  pub focus_winid : ℕ
  pub app_id : Text
  pub title : Text
  pub source : Text
  pub menu_service : Text
  pub menu_path : Text
  pub menu : Option MenuItem

unfoldable pub payload_of : ActiveSnapshot → Option MenuItem → MenuSource → Payload
payload_of snap menu source = record {
  v = 1;
  focus_pid = snap.focus_pid;
  focus_winid = snap.focus_winid;
  app_id = snap.app_id;
  title = snap.title;
  source = as_str source;
  menu_service = snap.menu_service;
  menu_path = Option.get_or snap.menu_path [];
  menu = menu;
}

-- The file, the calls of `qs ipc call appmenu update`, and the caller's `last_body`.
pub record Writer : Type 0 where
  pub last_body : Option Text
  pub file : Option Text
  pub pushed : List Text

abbrev pub is_body : Option Text → Text → Bool
is_body none body = false
is_body (some last) body = text_eq last body

-- A body is written if it is new. `writes` is whether `std::fs::write` succeeds; where it fails,
-- the file is as the failed write left it.
unfoldable pub write_body : Text → Bool → Option Text → Writer → Writer
write_body body writes left w =
    if is_body w.last_body body
    then w
    else if writes
    then record { last_body = some body; file = some body; pushed = w.pushed ++ body ∷ [] }
    else record w { file = left; pushed = w.pushed ++ body ∷ [] }

-- How one `std::fs::write` goes.
pub record Disk : Type 0 where
  pub writes : Bool
  pub left : Option Text

unfoldable pub write_active_json :
    (Payload → Text) → Disk → ActiveSnapshot → Option MenuItem → MenuSource → Writer → Writer
write_active_json to_string disk snap menu source =
    write_body (to_string (payload_of snap menu source)) disk.writes disk.left
