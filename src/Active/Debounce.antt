-- ===== src/Active/Debounce.antt =====
-- `run` of bridge/src/active.rs beside the sender of the focus channel, as a step relation. The
-- channel is tokio's `watch`: it holds the latest value, and knows whether the receiver has seen
-- it.
pub mod Laws
pub mod Timed
use noctalia_appmenu.Prelude.{ℕ, Bool, true, false, List, [], ◌∷◌, ◌++◌, Option, none, ◌≡◌}
use noctalia_appmenu.Focus.{FocusEvent}
use noctalia_appmenu.Active.Snapshot.{ActiveSnapshot, snapshot}

-- Where the task stands: at `changed().await`, in the sleep, or returned.
pub data Phase : Type 0 where
  awaiting : Phase
  sleeping : Phase
  returned : Phase

pub record Debounce : Type 0 where
  -- the channel: its value, whether that is unseen, and whether the sender is gone
  pub latest : Option FocusEvent
  pub unseen : Bool
  pub is_closed : Bool
  pub phase : Phase
  -- what was sent to the channel and to the proxy task, in order
  pub sent : List (Option FocusEvent)
  pub published : List ActiveSnapshot

abbrev pub initial : Debounce
initial = record {
  latest = none;
  unseen = false;
  is_closed = false;
  phase = awaiting;
  sent = [];
  published = [];
}

-- `send` of the focus source, which replaces the value.
abbrev pub after_send : Debounce → Option FocusEvent → Debounce
after_send s v = record s { latest = v; unseen = true; sent = s.sent ++ v ∷ [] }

-- `changed()` returns `Ok`: the value counts as seen, and the sleep begins.
abbrev pub after_changed : Debounce → Debounce
after_changed s = record s { unseen = false; phase = sleeping }

-- The sleep is over: `borrow_and_update`, and the snapshot of what the channel holds now is sent.
abbrev pub after_sleep : Debounce → Debounce
after_sleep s = record s {
  unseen = false;
  phase = awaiting;
  published = s.published ++ snapshot s.latest ∷ [];
}

pub data Step (s : Debounce) : Debounce → Type 0 where
  send : (v : Option FocusEvent) → s.is_closed ≡ false → Step s (after_send s v)
  drop_sender : Step s (record s { is_closed = true })
  changed : s.phase ≡ awaiting → s.unseen ≡ true → Step s (after_changed s)
  changed_err :
      s.phase ≡ awaiting
      → s.unseen ≡ false
      → s.is_closed ≡ true
      → Step s (record s { phase = returned })
  sleep_over : s.phase ≡ sleeping → Step s (after_sleep s)

pub data Reach : Debounce → Type 0 where
  start : Reach initial
  next : {s t : Debounce} → Reach s → Step s t → Reach t
