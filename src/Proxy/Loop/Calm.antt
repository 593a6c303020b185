-- ===== src/Proxy/Loop/Calm.antt =====
-- A window of an application that is known to have no menubar is shown at once, and does not
-- flicker.
use noctalia_appmenu.Prelude.{
  ◌≡◌, ◌≢◌, true, false, List, [], ◌∷◌, Option, none, if◌then◌else◌, ◌+◌, ◌<◌, trim, Text,
  from_secs,
}
use noctalia_appmenu.Config.{Config}
use noctalia_appmenu.Atspi.Skip.{should_skip}
use noctalia_appmenu.Desktop.Resolve.{System, fresh_memo}
use noctalia_appmenu.Proxy.Write.{Payload, is_body}
use noctalia_appmenu.Proxy.Loop.{Bridge, Round}
use noctalia_appmenu.Proxy.Loop.Pushes.{Request}

-- A body that is told at most once.
abbrev pub told : Option Text → Request → List Text
told last (forced, body) = if is_body (if forced then none else last) body then [] else body ∷ []

module _ (cfg : Config) (sys : System) (to_string : Payload → Text) where
  -- The round's window belongs to an application that is known to have no menubar, and nothing is
  -- remembered of its desktop entry; the round ends within a minute.
  pub record IsKnownBare (r : Round) (s : Bridge) : Type 0 where
    pub focused : r.snapshot.focus_pid ≢ 0
    pub configured : cfg.desktop_fallback ≡ true
    pub skipped_eager : should_skip s.learned r.eager_at r.snapshot.app_id ≡ true
    pub skipped : should_skip s.learned r.skip_at r.snapshot.app_id ≡ true
    pub unpoisoned : s.resolved.poisoned ≡ false
    pub absent : fresh_memo s.resolved r.eager_resolve_at (trim r.snapshot.app_id) ≡ none
    pub soon : r.final_resolve_at < r.eager_resolve_at + from_secs 60
