-- ===== src/Atspi/A11y.antt =====
-- `enable_a11y`, `connect_a11y` and `is_a11y_enabled` of bridge/src/atspi.rs, by the answers of the
-- session bus and of the accessibility bus to their calls.
use noctalia_appmenu.Prelude.{ℕ, Bool, ◌&&◌, Option, none, some, if◌then◌else◌, Text}

-- The answers during one call of these. Of a connection only its identity is used.
pub record A11yBus : Type 0 where
  -- whether the session bus is reached, and the proxy of `org.a11y.Bus` builds
  pub has_session : Bool
  pub has_bus : Bool
  -- whether `Set` succeeds
  pub sets : Bool
  -- what `Get` returns for `IsEnabled`: `some none` for a value that is no Boolean
  pub gets : Option (Option Bool)
  -- what `GetAddress` returns, and the connection to an address
  pub address : Option Text
  pub opens : Text → Option ℕ

-- whether it succeeds
unfoldable pub enable_a11y : A11yBus → Bool
enable_a11y bus = bus.has_session && (bus.has_bus && bus.sets)

unfoldable pub connect_a11y : A11yBus → Option ℕ
connect_a11y bus =
    if bus.has_session && bus.has_bus
    then elim bus.address [ none ↦ none | some address ↦ bus.opens address ]
    else none

unfoldable pub is_a11y_enabled : A11yBus → Option Bool
is_a11y_enabled bus =
    if bus.has_session && bus.has_bus then elim bus.gets [ none ↦ none | some v ↦ v ] else none
