-- ===== src/Main/Laws.antt =====
-- When the process ends with 2, and when it becomes the daemon.
use noctalia_appmenu.Prelude.{
  ◌≡◌, refl, ◌↔◌, ◌≢◌, ◌⊎◌, Bool, true, false, List, [], ◌∷◌, ◌++◌, Option, none, some, arith, Text,
  Instant,
}
use noctalia_appmenu.Config.{Config, load}
use noctalia_appmenu.Desktop.Resolve.{System, ResolveCache}
use noctalia_appmenu.Click.Effect.{Effect, probed, Replies}
use noctalia_appmenu.Click.Command.{
  Exit, exit_success, exit_stale, pre_focus, signal_refresh_active,
}
use noctalia_appmenu.Click.Command.Laws.{IsStale, run_atspi_click-IsStale, run_atspi_expand-IsStale}
use noctalia_appmenu.Main.{
  Cmd, atspi_click, atspi_expand, Cli, Ended, sigterm, sigint, Host, shut_down, run_daemon, run_cmd,
  main,
}

-- The command addresses an accessible that does not answer.
abbrev pub AddressesStale : Replies → Option Cmd → Type 0
AddressesStale re none = ⊥
AddressesStale re (some (atspi_click service path winid ms)) = IsStale re service path
AddressesStale re (some (atspi_expand service path winid ms)) = IsStale re service path

-- The pre-focus, the probe and the request for a refresh.
abbrev pub probe_only : Replies → Option Cmd → List Effect
probe_only re none = []
probe_only re (some (atspi_click service path winid ms)) =
    pre_focus re winid ms
    ++ (probed (record { service = service; path = path }) ∷ signal_refresh_active re)
probe_only re (some (atspi_expand service path winid ms)) =
    pre_focus re winid ms
    ++ (probed (record { service = service; path = path }) ∷ signal_refresh_active re)

-- What has to be there for the daemon to start its tasks.
abbrev pub Starts : Host → Cli → Config → Type 0
Starts host cli cfg =
    (cli.version_json ≡ false)
    × (cli.cmd ≡ none)
    × (load host.env host.files cli.config ≡ some cfg)
    × (host.has_session ≡ true)

-- The daemon waits for a signal, and gets one.
abbrev pub IsSignalled : Host → Type 0
IsSignalled host =
    (host.has_sigterm ≡ true)
    × (host.has_sigint ≡ true)
    × ((host.ended ≡ sigterm) ⊎ (host.ended ≡ sigint))

shut_down-exit_success : (e : Ended) → (shut_down e ≡ exit_success) ↔ ((e ≡ sigterm) ⊎ (e ≡ sigint))
unfolding shut_down
shut_down-exit_success e = ground arith

run_daemon-ne-exit_stale :
    (host : Host) (path : Option Text) → (run_daemon host path).exit ≢ exit_stale
unfolding run_daemon shut_down
run_daemon-ne-exit_stale host path = ground arith

no_command : ¬ (Path Exit exit_success exit_stale)
no_command e = absurd (cc)

module _ (host : Host) (re : Replies) (sys : System) (cache : ResolveCache) (now : Instant) where
  EndsStale : Cli → Type 0
  EndsStale cli =
      (((main host re sys cache now cli).exit ≡ exit_stale)
        ↔ ((cli.version_json ≡ false) × AddressesStale re cli.cmd))
      × ((((main host re sys cache now cli).exit ≡ exit_stale)
            × ((main host re sys cache now cli).effects ≡ probe_only re cli.cmd))
          ↔ ((cli.version_json ≡ false) × AddressesStale re cli.cmd))

  EndsStale-cases :
      (foreground version_json : Bool) (config : Option Text) (cmd : Option Cmd)
      → EndsStale (record {
        foreground = foreground;
        version_json = version_json;
        config = config;
        cmd = cmd;
      })
  unfolding EndsStale main run_cmd
  EndsStale-cases foreground true config cmd = (
    (λ e. absurd (no_command e), λ h. absurd (cc)),
    (λ e. absurd (no_command e.0), λ h. absurd (cc)),
  )
  EndsStale-cases foreground false config none =
      let never = run_daemon-ne-exit_stale host config in
      ((λ e. absurd (never e), λ h. absurd (h.1)), (λ e. absurd (never e.0), λ h. absurd (h.1)))
  EndsStale-cases foreground false config (some (atspi_click service path winid ms)) =
      let ((to, from), does) = run_atspi_click-IsStale re sys cache now service path winid ms in
      ((λ e. (refl, to e), λ h. from h.1), (λ e. (refl, to e.0), λ h. (from h.1, does h.1)))
  EndsStale-cases foreground false config (some (atspi_expand service path winid ms)) =
      let ((to, from), does) = run_atspi_expand-IsStale re sys cache now service path winid ms in
      ((λ e. (refl, to e), λ h. from h.1), (λ e. (refl, to e.0), λ h. (from h.1, does h.1)))

module _ (host : Host) (re : Replies) (sys : System) (cache : ResolveCache) (now : Instant)
    (cli : Cli) where
  -- The process ends with 2 exactly where it was not asked for its version, and its command, a
  -- click or an expansion, addresses an accessible that does not answer the probe (with the bus
  -- reached and its proxy built). And it is exactly there that it ends with 2 and has done its
  -- pre-focus, the probe, and a request for a refresh where the session bus is reached, and nothing
  -- else: no `DoAction` is sent to an accessible that is gone.
  pub main-exit_stale :
      (((main host re sys cache now cli).exit ≡ exit_stale)
        ↔ ((cli.version_json ≡ false) × AddressesStale re cli.cmd))
      × ((((main host re sys cache now cli).exit ≡ exit_stale)
            × ((main host re sys cache now cli).effects ≡ probe_only re cli.cmd))
          ↔ ((cli.version_json ≡ false) × AddressesStale re cli.cmd))
  unfolding EndsStale
  main-exit_stale =
      EndsStale-cases host re sys cache now cli.foreground cli.version_json cli.config cli.cmd

  -- The tasks are started exactly where no version and no command was asked for, the configuration
  -- loads and the session bus is reached, and then with that configuration; and a daemon that has
  -- started them ends without an error exactly where it waits for both signals and gets one of
  -- them.
  pub main-tasks :
      (cfg : Config)
      → (((main host re sys cache now cli).tasks ≡ some cfg) ↔ Starts host cli cfg)
        × ((((main host re sys cache now cli).tasks ≡ some cfg)
              × ((main host re sys cache now cli).exit ≡ exit_success))
            ↔ (Starts host cli cfg × IsSignalled host))
  unfolding main run_cmd run_daemon
  main-tasks cfg = ground (arith, shut_down-exit_success host.ended)
