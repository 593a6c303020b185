-- ===== src/Main/Tests.antt =====
-- A click on an accessible that is gone, and a daemon that is told to stop.
use noctalia_appmenu.Prelude.{◌≡◌, ◌↔◌, false, true, none, some, codes}
use noctalia_appmenu.Config.{default_config}
use noctalia_appmenu.Click.Command.{exit_success, exit_stale}
use noctalia_appmenu.Click.Tests.{gone}
use noctalia_appmenu.Desktop.Tests.{machine, no_memos}
use noctalia_appmenu.Main.{atspi_click, Cli, sigterm, Host, main}
use noctalia_appmenu.Main.Laws.{
  AddressesStale, probe_only, Starts, IsSignalled, main-exit_stale, main-tasks,
}

abbrev told_to_stop : Host
told_to_stop = record {
  env = λ v. some (codes "/home/user");
  files = record { exists_at = λ p. false; read_to_string = λ p. none; from_str = λ t. none };
  enables_a11y = true;
  has_session = true;
  has_sigterm = true;
  has_sigint = true;
  ended = sigterm;
}

abbrev daemon : Cli
daemon = record { foreground = false; version_json = false; config = none; cmd = none }

abbrev click : Cli
click = record daemon { cmd = some (atspi_click (codes ":1.7") (codes "/file") 7 150) }

main-exit_stale_example :
    (((main told_to_stop gone machine no_memos 5 click).exit ≡ exit_stale)
      ↔ ((click.version_json ≡ false) × AddressesStale gone click.cmd))
    × ((((main told_to_stop gone machine no_memos 5 click).exit ≡ exit_stale)
          × ((main told_to_stop gone machine no_memos 5 click).effects ≡ probe_only gone click.cmd))
        ↔ ((click.version_json ≡ false) × AddressesStale gone click.cmd))
main-exit_stale_example = main-exit_stale told_to_stop gone machine no_memos 5 click

main-tasks_example :
    (((main told_to_stop gone machine no_memos 5 daemon).tasks ≡ some default_config)
      ↔ Starts told_to_stop daemon default_config)
    × ((((main told_to_stop gone machine no_memos 5 daemon).tasks ≡ some default_config)
          × ((main told_to_stop gone machine no_memos 5 daemon).exit ≡ exit_success))
        ↔ (Starts told_to_stop daemon default_config × IsSignalled told_to_stop))
main-tasks_example = main-tasks told_to_stop gone machine no_memos 5 daemon default_config
