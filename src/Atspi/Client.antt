-- ===== src/Atspi/Client.antt =====
-- `AtspiClient` and `watch_a11y_status` of bridge/src/atspi.rs: the connection that the walks
-- share, and the poll that drops it.
pub mod Laws
use noctalia_appmenu.Prelude.{ℕ, Bool, true, false, List, [], ◌∷◌, ◌++◌, Option, none, some}
use noctalia_appmenu.Atspi.A11y.{A11yBus, enable_a11y, connect_a11y, is_a11y_enabled}
use noctalia_appmenu.Atspi.Skip.{Learned, clear_expensive}

-- What the walks and the watcher share.
pub record Shared : Type 0 where
  pub inner : Option ℕ
  pub learned : Learned
  -- whether `IsEnabled` was set, by `enable_a11y`
  pub enabled : List Bool

-- `connection`: the cached one, or else a new one, which is kept. `none` is an error.
unfoldable pub connection : Shared → A11yBus → Shared × Option ℕ
connection s bus = elim s.inner [
  | some c ↦ (s, some c)
  | none ↦ elim (connect_a11y bus) [
    | none ↦ (s, none)
    | some c ↦ (record s { inner = some c }, some c)
  ]
]

-- `invalidate`
unfoldable pub invalidate : Shared → Shared
invalidate s = record s { inner = none }

-- What the watcher does with an answer; `enable_a11y` succeeds or not.
unfoldable pub after_probe : Shared → Option Bool → Bool → Shared
after_probe s (some true) sets = s
after_probe s (some false) sets =
    let dropped = invalidate s in
    record dropped { learned = clear_expensive s.learned; enabled = s.enabled ++ sets ∷ [] }
after_probe s none sets =
    let dropped = invalidate s in record dropped { learned = clear_expensive s.learned }

-- One round of the watcher.
unfoldable pub poll : Shared → A11yBus → A11yBus → Shared
poll s at_probe at_set = after_probe s (is_a11y_enabled at_probe) (enable_a11y at_set)

-- What may happen to the client, in the order in which it happens.
pub data Use : Type 0 where
  connects : A11yBus → Use
  polls : A11yBus → A11yBus → Use

-- The connections that `connection` returns in the course of these.
unfoldable pub handed_out : Shared → List Use → List ℕ
handed_out s [] = []
handed_out s (connects bus ∷ rest) =
    let (next, got) = connection s bus in
    let later = handed_out next rest in elim got [ none ↦ later | some c ↦ c ∷ later ]
handed_out s (polls at_probe at_set ∷ rest) = handed_out (poll s at_probe at_set) rest
