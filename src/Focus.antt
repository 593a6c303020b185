-- ===== src/Focus.antt =====
-- bridge/src/focus.rs: what a focus source publishes.
use noctalia_appmenu.Prelude.{ℕ, Text}

pub record FocusEvent : Type 0 where
  pub winid : ℕ
  pub pid : ℕ
  pub app_id : Text
  pub title : Text

pub data FocusOp : Type 0 where
  emit : FocusEvent → FocusOp
  defocus : FocusOp
  no_change : FocusOp
  unknown_window : ℕ → FocusOp
