-- ===== src/Click/Effect.antt =====
-- What a click does to other processes, in order, and how it ends. The replies are parameters.
use noctalia_appmenu.Prelude.{ℕ, Bool, List, ◌++◌, Option, Text}
use noctalia_appmenu.Menu.Tree.{MenuItem}
use noctalia_appmenu.Atspi.World.{Ref, World}

pub data Effect : Type 0 where
  -- `FocusWindow` was sent to niri
  focus_window : ℕ → Effect
  -- `tokio::time::sleep` for that many milliseconds
  slept : ℕ → Effect
  -- the `GetRole` probe
  probed : Ref → Effect
  -- `DoAction(0)`
  acted : Ref → Effect
  -- `niri msg action <action>` was started
  niri_action : Text → Effect
  -- the program was spawned with its arguments
  spawned : List Text → Effect
  -- `RefreshActive` was called on the bridge
  refreshed : Effect
  -- the children were printed
  printed : List MenuItem → Effect

-- `MenuError::Stale`, another error, or a panic.
pub data Failure : Type 0 where
  stale : Text → Text → Failure
  failed : Failure
  panicked : Failure

pub data Result (A : Type 0) : Type 0 where
  done : A → Result A
  failure : Failure → Result A

-- The effects of a call, and its result.
abbrev pub Ran : Type 0 → Type 0
Ran A = List Effect × Result A

-- More effects in front.
abbrev pub after : {A : Type 0} → List Effect → Ran A → Ran A
after es (fs, r) = (es ++ fs, r)

-- How the other processes reply: `none` for `do_action` is an error. `realized` is the accessible
-- tree after the expansion.
pub record Replies : Type 0 where
  -- whether niri's socket connects, and its reply to `FocusWindow`: `none` if there is none, and
  -- whether the request was handled
  pub niri_connects : Bool
  pub focuses : ℕ → Option Bool
  -- whether the session bus is reached for `RefreshActive`
  pub has_session : Bool
  pub connects : Bool
  -- whether the path parses, and the proxies for the accessible and for its action build
  pub has_path : Ref → Bool
  pub has_accessible : Ref → Bool
  pub has_action : Ref → Bool
  pub probe_answers : Ref → Bool
  pub do_action : Ref → Option Bool
  pub niri_succeeds : Text → Bool
  pub spawns : List Text → Bool
  pub realized : World
