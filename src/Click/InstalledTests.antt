-- ===== src/Click/InstalledTests.antt =====
-- Clicks on the leaves of an installed entry, and of one whose id is refused.
use noctalia_appmenu.Prelude.{
  ◌≡◌, refl, starts_with, strip_prefix, strip_suffix, true, [], ◌∷◌, none, some, text_eq, codes,
  trim, is_whitespace, byte_len, retain, List, All, ascii, ◌++◌,
}
use noctalia_appmenu.Menu.Tree.{fields}
use noctalia_appmenu.Desktop.Entry.{DesktopAction, DesktopEntry}
use noctalia_appmenu.Desktop.Exec.RoundTrip.{
  Word, arg, field_code, word, escape, escape_char, render, IsProper,
}
use noctalia_appmenu.Desktop.Resolve.{
  System, app_dirs, join, resolve, is_valid_desktop_id, is_ascii_alphanumeric,
}
use noctalia_appmenu.Prelude.Str.Split.{split, split_once}
use noctalia_appmenu.Desktop.Fallback.{launch_leaf, build_enriched}
use noctalia_appmenu.Click.Launch.{refused, launch_app, dispatch_synthetic, dispatch_to}
use noctalia_appmenu.Desktop.Tests.{machine, no_memos, new_tab, shell, U-ne-percent}
use noctalia_appmenu.Desktop.Entry.Print.{print, IsPrintable}
use noctalia_appmenu.Click.Installed.{IsInstalled, installed_rows, build_enriched-installed_rows}
use noctalia_appmenu.Click.Rows.{app_label, rows, idle_row, quit_row, window_rows}
use noctalia_appmenu.Click.Tests.{willing}

-- The launch leaf of an entry that was read from the file "My App.desktop".
my_app_is_refused :
    dispatch_synthetic willing machine no_memos 5
      (fields (launch_leaf 0 (codes "New Window") (codes "My App") [])).path
    ≡ refused
unfolding dispatch_synthetic split_once launch_leaf dispatch_to text_eq launch_app resolve
    is_valid_desktop_id trim is_whitespace byte_len is_ascii_alphanumeric
my_app_is_refused = refl

-- An entry with quoted commands.
abbrev quoted_tab : DesktopAction
quoted_tab = record new_tab { exec = codes "\"kitty\" \"+tab 100%%\"" }

abbrev quoted_shell : DesktopEntry
quoted_shell = record shell { exec = codes "\"kitty\" %U"; actions = quoted_tab ∷ [] }

quoted_shell-IsPrintable : IsPrintable quoted_shell
unfolding is_whitespace text_eq
quoted_shell-IsPrintable = record {
  name = (refl, (refl, refl));
  exec = (refl, (refl, refl));
  icon = (refl, (tt, tt));
  startup_wm_class = (refl, (refl, refl));
  actions = (
    record {
      named = refl;
      no_semicolon = refl;
      id = (refl, (refl, refl));
      name = (refl, (refl, refl));
      exec = (refl, (refl, refl));
      icon = (refl, (tt, tt));
    },
    tt,
  );
  distinct = (tt, tt);
}

-- A directory with one printed entry.
abbrev installed : System
installed = record machine {
  files = record {
    is_file = λ p. text_eq p (codes "/usr/local/share/applications/kitty.desktop");
    read_to_string = λ p. some (print quoted_shell);
    read_dir = λ d. none;
  };
}

first_dir :
    app_dirs installed.env
    ≡ codes "/usr/local/share/applications" ∷ codes "/usr/share/applications" ∷ []
unfolding app_dirs retain split join starts_with strip_suffix
first_dir = refl

kitty_is_there : IsInstalled installed (codes "/usr/local/share/applications") quoted_shell
unfolding join text_eq starts_with strip_prefix strip_suffix
kitty_is_there = (refl, refl)

kitty_is_valid : is_valid_desktop_id (codes "kitty") ≡ true
unfolding is_valid_desktop_id byte_len text_eq is_ascii_alphanumeric
kitty_is_valid = refl

abbrev command : List Word
command = arg (codes "kitty") ∷ field_code b'U' ∷ []

abbrev tab_command : List Word
tab_command = arg (codes "kitty") ∷ arg (codes "+tab 100%") ∷ []

commands-IsProper : All IsProper command × All IsProper tab_command
commands-IsProper = (((λ e. cc), (U-ne-percent, tt)), ((λ e. cc), ((λ e. cc), tt)))

printed_commands : (quoted_shell.exec ≡ render command) × (quoted_tab.exec ≡ render tab_command)
unfolding render word escape escape_char
printed_commands = (refl, refl)

build_enriched-installed_rows_example :
    rows willing installed no_memos 5 (build_enriched ascii (codes "kitty") quoted_shell)
    ≡ idle_row willing installed no_memos 5 (app_label ascii (codes "kitty") quoted_shell)
      ∷ idle_row willing installed no_memos 5 (app_label ascii (codes "kitty") quoted_shell)
      ∷ ((installed_rows willing installed no_memos 5 quoted_shell command
              (λ _. tab_command)
              (quoted_tab ∷ [])
            ++ (quit_row willing installed no_memos 5 (app_label ascii (codes "kitty") quoted_shell)
                ∷ []))
          ++ window_rows willing installed no_memos 5)
build_enriched-installed_rows_example =
    build_enriched-installed_rows willing installed no_memos 5 quoted_shell command
      (λ _. tab_command) (codes "/usr/local/share/applications")
      (codes "/usr/share/applications" ∷ []) ascii (codes "kitty") quoted_shell-IsPrintable
      first_dir kitty_is_there kitty_is_valid refl printed_commands.0 commands-IsProper.0
      ((printed_commands.1, commands-IsProper.1), tt)
