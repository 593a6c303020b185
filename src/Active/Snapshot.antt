-- ===== src/Active/Snapshot.antt =====
-- `ActiveSnapshot`, `empty` and `snapshot`.
use noctalia_appmenu.Prelude.{ℕ, [], Option, none, some, Text}
use noctalia_appmenu.Focus.{FocusEvent}

pub record ActiveSnapshot : Type 0 where
  pub focus_pid : ℕ
  pub focus_winid : ℕ
  pub app_id : Text
  pub title : Text
  pub menu_service : Text
  pub menu_path : Option Text

-- `ActiveSnapshot::empty`
abbrev pub empty : ActiveSnapshot
empty = record {
  focus_pid = 0;
  focus_winid = 0;
  app_id = [];
  title = [];
  menu_service = [];
  menu_path = none;
}

unfoldable pub snapshot : Option FocusEvent → ActiveSnapshot
snapshot none = empty
snapshot (some f) = record {
  focus_pid = f.pid;
  focus_winid = f.winid;
  app_id = f.app_id;
  title = f.title;
  menu_service = [];
  menu_path = none;
}
