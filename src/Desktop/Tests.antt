-- ===== src/Desktop/Tests.antt =====
-- One application directory with one file, and an `Exec` value.
use mathlib.Core.Path.{subst}
use noctalia_appmenu.Prelude.{
  trim, is_whitespace, true, false, ℕ, ◌≡◌, ◌≢◌, refl, List, [], ◌∷◌, ◌++◌, none, some, arith, All,
  if◌then◌else◌, text_eq, starts_with, strip_prefix, strip_suffix, Text, codes, ascii,
}
use noctalia_appmenu.Prelude.Map.{empty_map, mutex}
use noctalia_appmenu.Desktop.Entry.Print.{print, IsPrintable}
use noctalia_appmenu.Desktop.Entry.RoundTrip.{parse_entry-print}
use noctalia_appmenu.Desktop.Entry.{
  DesktopAction, DesktopEntry, Env, parse_entry, is_displayable, flag_lines, flag_line, header_of,
}
use noctalia_appmenu.Prelude.Str.Split.{lines, split}
use noctalia_appmenu.Desktop.Exec.{exec_to_argv}
use noctalia_appmenu.Desktop.Exec.RoundTrip.{
  Word, arg, field_code, render, args_of, IsProper, exec_to_argv-render,
}
use noctalia_appmenu.Desktop.Resolve.{
  join, Files, System, ResolveCache, resolve_in, is_valid_desktop_id, direct, or,
}
use noctalia_appmenu.Desktop.Resolve.Tiers.{by_tiers, entries, resolve_in-tiers}
use noctalia_appmenu.Desktop.Resolve.Confined.{
  IsComponent, AllComponents, AgreeBelow, resolve_in-confined,
}

abbrev applications : Text
applications = codes "/usr/share/applications"

abbrev kitty_desktop : Text
kitty_desktop = codes "[Desktop Entry]\nType=Application\nName=Kitty\nExec=kitty %U\n"

abbrev pub one_file : Files
one_file = record {
  is_file = λ p. text_eq p (codes "/usr/share/applications/kitty.desktop");
  read_to_string = λ p.
      if text_eq p (codes "/usr/share/applications/kitty.desktop")
      then some kitty_desktop
      else none;
  read_dir = λ d. if text_eq d applications then some (codes "kitty.desktop" ∷ []) else none;
}

abbrev pub machine : System
machine = record { unicode = ascii; env = λ _. none; files = one_file }

-- The same, with a file elsewhere.
abbrev with_passwd : Files
with_passwd = record {
  is_file = one_file.is_file;
  read_to_string =
      λ p. if text_eq p (codes "/etc/passwd") then some [] else one_file.read_to_string p;
  read_dir = one_file.read_dir;
}

agree_at :
    (stem : Text)
    → IsComponent stem
    → one_file.read_to_string (join applications (stem ++ codes ".desktop"))
      ≡ with_passwd.read_to_string (join applications (stem ++ codes ".desktop"))
unfolding text_eq join starts_with strip_prefix strip_suffix
agree_at [] h = refl
agree_at (c ∷ stem) h = ground arith

lists_components :
    (names : List Text) → one_file.read_dir applications ≡ some names → AllComponents names
unfolding text_eq
lists_components names e =
    let same : (codes "kitty.desktop" ∷ []) ≡ names = cc in subst AllComponents same (refl, tt)

agree : AgreeBelow one_file with_passwd (applications ∷ [])
agree = ((λ stem c. (refl, agree_at stem c)), refl, lists_components, tt)

resolve_in-confined_example :
    resolve_in machine (applications ∷ []) (codes "kitty")
    ≡ resolve_in (record machine { files = with_passwd }) (applications ∷ []) (codes "kitty")
resolve_in-confined_example =
    resolve_in-confined machine with_passwd (applications ∷ []) (codes "kitty") agree

resolve_in-tiers_example : resolve_in machine (applications ∷ []) (codes " kitty ") ≡ (
    if is_valid_desktop_id (trim (codes " kitty "))
    then or
        (direct machine (trim (codes " kitty ")) (applications ∷ []))
        (by_tiers ascii (trim (codes " kitty ")) (entries machine (applications ∷ [])))
    else none)
resolve_in-tiers_example = resolve_in-tiers machine (applications ∷ []) (codes " kitty ")

abbrev pub no_memos : ResolveCache
no_memos = mutex empty_map

abbrev pub new_tab : DesktopAction
new_tab = record { id = codes "new"; name = codes "New Tab"; exec = codes "kitty +tab"; icon = [] }

abbrev pub shell : DesktopEntry
shell = record {
  id = codes "kitty";
  name = codes "Kitty";
  exec = codes "kitty %U";
  icon = [];
  startup_wm_class = some (codes "kitty");
  actions =
      new_tab ∷ record { id = codes "top"; name = []; exec = codes "top"; icon = codes "top" } ∷ [];
}

pub shell-IsPrintable : IsPrintable shell
unfolding is_whitespace text_eq
shell-IsPrintable = record {
  name = (refl, (refl, refl));
  exec = (refl, (refl, refl));
  icon = (refl, (tt, tt));
  startup_wm_class = (refl, (refl, refl));
  actions = (
    record {
      named = refl;
      no_semicolon = refl;
      id = (refl, (refl, refl));
      name = (refl, (refl, refl));
      exec = (refl, (refl, refl));
      icon = (refl, (tt, tt));
    },
    (
      record {
        named = refl;
        no_semicolon = refl;
        id = (refl, (refl, refl));
        name = (refl, (tt, tt));
        exec = (refl, (refl, refl));
        icon = (refl, (refl, refl));
      },
      tt,
    ),
  );
  distinct = ((refl, tt), (tt, tt));
}

abbrev brazilian : Env
brazilian v = if text_eq v (codes "LANG") then some (codes "pt_BR.UTF-8") else none

parse_entry-print_example : parse_entry brazilian (print shell) (codes "kitty") ≡ some shell
parse_entry-print_example = parse_entry-print brazilian shell shell-IsPrintable

abbrev command : List Word
command = arg (codes "sh") ∷ arg (codes "echo \"$HOME\" 100%") ∷ field_code b'U' ∷ []

pub U-ne-percent : ◌≢◌ {A = ℕ} b'U' b'%'
U-ne-percent e = ground arith

command-IsProper : All IsProper command
command-IsProper = ((λ e. cc), ((λ e. cc), (U-ne-percent, tt)))

exec_to_argv-render_example : exec_to_argv (render command) ≡ args_of command
exec_to_argv-render_example = exec_to_argv-render command command-IsProper

-- An entry is hidden by the whole line "NoDisplay=true", with no spaces in it.
spaced_is_displayable : is_displayable (codes "[Desktop Entry]\nNoDisplay = true\n") ≡ true
unfolding is_displayable flag_lines flag_line lines split strip_prefix strip_suffix text_eq trim
    is_whitespace header_of
spaced_is_displayable = refl

unspaced_is_hidden : is_displayable (codes "[Desktop Entry]\nNoDisplay=true\n") ≡ false
unfolding is_displayable flag_lines flag_line lines split strip_prefix strip_suffix text_eq trim
    is_whitespace header_of
unspaced_is_hidden = refl
