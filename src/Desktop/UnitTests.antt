-- ===== src/Desktop/UnitTests.antt =====
-- The unit tests of bridge/src/desktop.rs on entries, Exec values and desktop ids.
use noctalia_appmenu.Prelude.{
  ◌≡◌, refl, true, not, [], ◌∷◌, all, retain, byte_len, text_eq, codes, Text, none, some, find,
  trim, trim_start, is_whitespace, starts_with, strip_prefix, strip_suffix, if◌then◌else◌,
}
use noctalia_appmenu.Desktop.Entry.{
  Env, parse_entry, add_lines, add_line, header_of, add_key, or_insert, entry_of, locale_name,
  lookup_actions, locale_prefs, action_order, parse_locale_prefs, lookup_action, action_groups,
}
use noctalia_appmenu.Prelude.Str.Split.{lines, split, split_once}
use noctalia_appmenu.Desktop.Exec.{exec_to_argv, tokenise, take_one, take_two, finish}
use noctalia_appmenu.Desktop.Resolve.{is_valid_desktop_id, is_ascii_alphanumeric}

exec_argv_strips_field_codes :
    (exec_to_argv (codes "cosmic-files %U") ≡ codes "cosmic-files" ∷ [])
    × (exec_to_argv (codes "foo %f %u %i %c %k") ≡ codes "foo" ∷ [])
    × (exec_to_argv (codes "app --flag %F --other")
        ≡ codes "app" ∷ codes "--flag" ∷ codes "--other" ∷ [])
unfolding exec_to_argv tokenise take_one take_two finish retain
exec_argv_strips_field_codes = (refl, refl, refl)

exec_argv_handles_quotes_and_percent_escape :
    (exec_to_argv (codes "\"/opt/My App/bin\" --run")
      ≡ codes "/opt/My App/bin" ∷ codes "--run" ∷ [])
    × (exec_to_argv (codes "foo 50%%") ≡ codes "foo" ∷ codes "50%" ∷ [])
    × (exec_to_argv (codes "\"a\\\"b\"") ≡ codes "a\"b" ∷ [])
unfolding exec_to_argv tokenise take_one take_two finish retain
exec_argv_handles_quotes_and_percent_escape = (refl, refl, refl)

exec_argv_empty_is_empty :
    (exec_to_argv [] ≡ []) × (exec_to_argv (codes "   ") ≡ []) × (exec_to_argv (codes "%f %u") ≡ [])
unfolding exec_to_argv tokenise take_one take_two finish retain
exec_argv_empty_is_empty = (refl, refl, refl)

accepts_ids :
    all is_valid_desktop_id (
      codes "com.system76.CosmicFiles"
      ∷ codes "firefox-nightly"
      ∷ codes "org.kde.kate"
      ∷ codes "google-chrome"
      ∷ codes "obsidian"
      ∷ [])
    ≡ true
unfolding is_valid_desktop_id is_ascii_alphanumeric byte_len text_eq
accepts_ids = refl

refuses_ids :
    all
      (λ id. not (is_valid_desktop_id id))
      ([]
        ∷ codes ".."
        ∷ codes "/tmp/pwn"
        ∷ codes "../../etc/shadow"
        ∷ codes "a/b"
        ∷ codes "a b"
        ∷ codes "a;rm -rf"
        ∷ codes "a$(x)"
        ∷ codes "name\ninjected"
        ∷ [])
    ≡ true
unfolding is_valid_desktop_id is_ascii_alphanumeric byte_len text_eq
refuses_ids = refl

abbrev no_locale : Env
no_locale v = none

abbrev cosmic : Text
cosmic =
    codes
      "[Desktop Entry]\nType=Application\nName=Files\nExec=cosmic-files %U\nIcon=com.system76.CosmicFiles\nStartupWMClass=com.system76.CosmicFiles\nActions=new-window;\n\n[Desktop Action new-window]\nName=New Window\nExec=cosmic-files --new-window\n"

parse_extracts_entry_and_actions :
    parse_entry no_locale cosmic (codes "com.system76.CosmicFiles")
    ≡ some (record {
      id = codes "com.system76.CosmicFiles";
      name = codes "Files";
      exec = codes "cosmic-files %U";
      icon = codes "com.system76.CosmicFiles";
      startup_wm_class = some (codes "com.system76.CosmicFiles");
      actions =
          record {
            id = codes "new-window";
            name = codes "New Window";
            exec = codes "cosmic-files --new-window";
            icon = [];
          }
          ∷ [];
    })
unfolding parse_entry find add_lines lines add_line trim is_whitespace starts_with header_of
    split_once add_key text_eq or_insert entry_of locale_name lookup_actions locale_prefs
    action_order parse_locale_prefs retain lookup_action action_groups split strip_prefix
    strip_suffix trim_start
parse_extracts_entry_and_actions = refl

parse_locale_prefs_expands_and_neutralises :
    (parse_locale_prefs (codes "pt_BR.UTF-8") ≡ codes "pt_BR" ∷ codes "pt" ∷ [])
    × (parse_locale_prefs (codes "pt_BR.UTF-8@euro") ≡ codes "pt_BR" ∷ codes "pt" ∷ [])
    × (parse_locale_prefs (codes "de") ≡ codes "de" ∷ [])
    × (parse_locale_prefs (codes "C") ≡ [])
    × (parse_locale_prefs (codes "POSIX") ≡ [])
    × (parse_locale_prefs [] ≡ [])
unfolding parse_locale_prefs trim is_whitespace text_eq split split_once
parse_locale_prefs_expands_and_neutralises = (refl, refl, refl, refl, refl, refl)

-- LC_MESSAGES is read before LC_ALL, which POSIX has override it.
abbrev overridden : Env
overridden v =
    if text_eq v (codes "LC_ALL")
    then some (codes "C")
    else if text_eq v (codes "LC_MESSAGES")
    then some (codes "de")
    else none

lc_all_does_not_override : locale_prefs overridden ≡ codes "de" ∷ []
unfolding locale_prefs parse_locale_prefs trim is_whitespace text_eq split split_once
lc_all_does_not_override = refl
