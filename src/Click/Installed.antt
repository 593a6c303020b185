-- ===== src/Click/Installed.antt =====
-- From a file in an application directory to the program that a click starts.
use mathlib.Core.Path.{subst}
use mathlib.Core.List.{reverse, reverse-cons}
use noctalia_appmenu.Prelude.{
  ℕ, ◌==◌, ◌≡◌, refl, sym, ap, ◌∙◌, inl, inr, Bool, true, false, ◌||◌, List, [], ◌∷◌, ◌++◌, none,
  some, arith, All, Any, all, is_empty, if◌then◌else◌, find, contains_char, is_whitespace, trim,
  map, Unicode, text_eq, Text, codes, Instant,
}
use noctalia_appmenu.Prelude.Str.Laws.{text_eq_refl}
use noctalia_appmenu.Prelude.Str.Bare.{StartsBare, StartsBare-append, trim-IsBare}
use noctalia_appmenu.Desktop.Entry.{DesktopAction, DesktopEntry}
use noctalia_appmenu.Desktop.Entry.Print.{print, IsPrintable, IsDistinct}
use noctalia_appmenu.Desktop.Entry.RoundTrip.{parse_entry-print, from_All}
use noctalia_appmenu.Desktop.Entry.Displayable.{is_displayable-print}
use noctalia_appmenu.Desktop.Exec.RoundTrip.{Word, render, args_of, IsProper, exec_to_argv-render}
use noctalia_appmenu.Desktop.Resolve.{
  join, System, is_ascii_alphanumeric, is_valid_desktop_id, app_dirs, read_candidate, direct,
  resolve_in, ResolveCache, fresh_memo, resolve,
}
use noctalia_appmenu.Desktop.Fallback.{build_enriched}
use noctalia_appmenu.Click.Effect.{Replies}
use noctalia_appmenu.Click.Launch.{refused, spawn_detached, run_exec, launch_app, launch_action}
use noctalia_appmenu.Click.Rows.{
  Row, app_label, rows, idle_row, action_row, launch_rows, quit_row, window_rows,
  build_enriched-rows,
}

-- The characters of a valid id are neither whitespace nor colons.
abbrev is_id_char : ℕ → Bool
is_id_char c = is_ascii_alphanumeric c || (c == b'.' || (c == b'-' || c == b'_'))

id_char_is_plain : (c : ℕ) → is_id_char c ≡ true → (is_whitespace c ≡ false) × ((c == b':') ≡ false)
unfolding is_ascii_alphanumeric is_whitespace
id_char_is_plain c h = ground arith

StartsBare-all : (s : Text) → all is_id_char s ≡ true → StartsBare s
StartsBare-all [] h = tt
StartsBare-all (c ∷ s) h = (id_char_is_plain c (ground arith)).0

reverse-StartsBare : (s : Text) → all is_id_char s ≡ true → StartsBare (reverse s)
reverse-StartsBare [] h = tt
reverse-StartsBare (c ∷ s) h = subst StartsBare (sym (reverse-cons c s)) (
    StartsBare-append (reverse s) (c ∷ []) (reverse-StartsBare s (ground arith))
      (id_char_is_plain c (ground arith)).0)

no_colon : (s : Text) → all is_id_char s ≡ true → contains_char b':' s ≡ false
no_colon [] h = refl
no_colon (c ∷ s) h = ground (arith, no_colon s, id_char_is_plain c)

all_id_chars : (id : Text) → is_valid_desktop_id id ≡ true → all is_id_char id ≡ true
unfolding is_valid_desktop_id
all_id_chars id h = ground arith

trim-is_valid_desktop_id : (id : Text) → is_valid_desktop_id id ≡ true → trim id ≡ id
trim-is_valid_desktop_id id h =
    let plain = all_id_chars id h in
    trim-IsBare id (StartsBare-all id plain, reverse-StartsBare id plain)

-- The directory has the entry's file, printed by the specification.
abbrev pub IsInstalled : System → Text → DesktopEntry → Type 0
IsInstalled sys dir e =
    (sys.files.is_file (join dir (e.id ++ codes ".desktop")) ≡ true)
    × (sys.files.read_to_string (join dir (e.id ++ codes ".desktop")) ≡ some (print e))

module _ (sys : System) (e : DesktopEntry) (h : IsPrintable e) where
  read_candidate-print :
      (path : Text)
      → sys.files.read_to_string path ≡ some (print e)
      → read_candidate sys path e.id ≡ some e
  unfolding read_candidate
  read_candidate-print path r =
      rw (read_candidate, r, is_displayable-print e h) (parse_entry-print sys.env e h)

  direct-IsInstalled :
      (dir : Text) (rest : List Text)
      → IsInstalled sys dir e
      → direct sys e.id (dir ∷ rest) ≡ some e
  unfolding direct
  direct-IsInstalled dir rest (is_file, reads) =
      rw (direct, is_file, read_candidate-print (join dir (e.id ++ codes ".desktop")) reads) refl

  resolve-IsInstalled :
      (cache : ResolveCache) (now : Instant) (dir : Text) (rest : List Text)
      → app_dirs sys.env ≡ dir ∷ rest
      → IsInstalled sys dir e
      → is_valid_desktop_id e.id ≡ true
      → fresh_memo cache now e.id ≡ none
      → (resolve sys cache now e.id).1 ≡ some e
  unfolding resolve resolve_in
  resolve-IsInstalled cache now dir rest dirs there valid absent = ground (
    arith,
    trim-is_valid_desktop_id e.id valid,
    ap (direct sys e.id) dirs,
    direct-IsInstalled dir rest there,
  )

-- An action is found by its id.
find_action :
    (a : DesktopAction) (actions : List DesktopAction)
    → IsDistinct actions
    → Any (λ b. a ≡ b) actions
    → find (λ b. text_eq b.id a.id) actions ≡ some a
unfolding find
find_action a [] d k = absurd k
find_action a (b ∷ rest) d (inl e) =
    subst (λ c. find (λ b. text_eq b.id c.id) (b ∷ rest) ≡ some c) (sym e)
      (rw (text_eq_refl b.id) refl)
find_action a (b ∷ rest) (d, ds) (inr k) =
    rw (from_All (λ c. text_eq b.id c.id ≡ false) a rest d k) (find_action a rest ds k)

module _ (re : Replies) (sys : System) (cache : ResolveCache) (now : Instant) where
  launch_app-resolve :
      (e : DesktopEntry)
      → (resolve sys cache now e.id).1 ≡ some e
      → launch_app re sys cache now e.id ≡ run_exec re e.exec
  unfolding launch_app
  launch_app-resolve e r = rw (launch_app, r) refl

  launch_action-resolve :
      (e : DesktopEntry) (a : DesktopAction)
      → (resolve sys cache now e.id).1 ≡ some e
      → find (λ b. text_eq b.id a.id) e.actions ≡ some a
      → launch_action re sys cache now e.id a.id ≡ run_exec re a.exec
  unfolding launch_action
  launch_action-resolve e a r k = rw (launch_action, r, k) refl

  run_exec-render :
      (exec : Text) (ws : List Word)
      → exec ≡ render ws
      → All IsProper ws
      → run_exec re exec ≡ spawn_detached re (args_of ws)
  unfolding spawn_detached
  run_exec-render exec ws same proper =
      rw (same, exec_to_argv-render ws proper) (spawned-or-refused (args_of ws))
    where
      spawned-or-refused :
          (argv : List Text)
          → (if is_empty argv then refused else spawn_detached re argv) ≡ spawn_detached re argv
      spawned-or-refused [] = refl
      spawned-or-refused (prog ∷ rest) = refl

  -- The launches of an entry with these words as its command, and as its actions' commands.
  abbrev pub installed_rows :
      DesktopEntry → List Word → (DesktopAction → List Word) → List DesktopAction → List Row
  installed_rows e ws words [] =
      if is_empty (trim e.exec)
      then []
      else (codes "New Window", spawn_detached re (args_of ws)) ∷ []
  installed_rows e ws words (a ∷ rest) =
      map
        (λ b. (
          if is_empty (trim b.name) then b.id else trim b.name,
          spawn_detached re (args_of (words b)),
        ))
        (a ∷ rest)

  -- The action's command is these words.
  abbrev pub IsWritten : (DesktopAction → List Word) → DesktopAction → Type 0
  IsWritten words a = (a.exec ≡ render (words a)) × All IsProper (words a)

  module _ (e : DesktopEntry) (found : (resolve sys cache now e.id).1 ≡ some e) where
    action_rows :
        (words : DesktopAction → List Word) (actions : List DesktopAction)
        → ((a : DesktopAction)
            → Any (λ b. a ≡ b) actions
            → find (λ b. text_eq b.id a.id) e.actions ≡ some a)
        → All (IsWritten words) actions
        → map (action_row re sys cache now e) actions
          ≡ map
              (λ b. (
                if is_empty (trim b.name) then b.id else trim b.name,
                spawn_detached re (args_of (words b)),
              ))
              actions
    action_rows words [] each h = refl
    action_rows words (a ∷ rest) each ((same, proper), hs) =
        let label = if is_empty (trim a.name) then a.id else trim a.name in
        let runs =
          launch_action-resolve e a found (each a (inl refl))
          ∙ run_exec-render a.exec (words a) same proper in
        ap (λ x. (label, x) ∷ map (action_row re sys cache now e) rest) runs
        ∙ ap (λ x. (label, spawn_detached re (args_of (words a))) ∷ x)
            (action_rows words rest (λ b k. each b (inr k)) hs)

    launch_rows-installed_rows :
        (ws : List Word) (words : DesktopAction → List Word) (actions : List DesktopAction)
        → ((a : DesktopAction)
            → Any (λ b. a ≡ b) actions
            → find (λ b. text_eq b.id a.id) e.actions ≡ some a)
        → e.exec ≡ render ws
        → All IsProper ws
        → All (IsWritten words) actions
        → launch_rows re sys cache now e actions ≡ installed_rows e ws words actions
    launch_rows-installed_rows ws words [] each same proper h =
        ap (λ x. if is_empty (trim e.exec) then [] else (codes "New Window", x) ∷ [])
          (launch_app-resolve e found ∙ run_exec-render e.exec ws same proper)
    launch_rows-installed_rows ws words (a ∷ rest) each same proper h =
        action_rows words (a ∷ rest) each h

  -- What a click does, for all items of the menu of an entry that is installed with an argument
  -- vector as its command, and with one as the command of each of its actions, quoted and escaped,
  -- with field codes among the words: where it declares actions, each action's item spawns exactly
  -- that action's argument vector; where it declares none, "New Window" spawns exactly the entry's;
  -- the other items do nothing or ask the compositor. Nothing on the way, neither the file, the
  -- lookup, the menu's path nor the tokeniser, changes an argument. (The entry is installed as its
  -- printed file in the first application directory, under a valid id, and the resolver has no
  -- fresh memo of the id. Its values are lines with no whitespace at their ends, and its actions
  -- have distinct ids, not empty and without semicolons. No argument is empty, and no field code is
  -- `%%`.)
  pub build_enriched-installed_rows :
      (e : DesktopEntry) (ws : List Word) (words : DesktopAction → List Word) (dir : Text)
      (rest : List Text) (u : Unicode) (app_id : Text)
      → IsPrintable e
      → app_dirs sys.env ≡ dir ∷ rest
      → IsInstalled sys dir e
      → is_valid_desktop_id e.id ≡ true
      → fresh_memo cache now e.id ≡ none
      → e.exec ≡ render ws
      → All IsProper ws
      → All (IsWritten words) e.actions
      → rows re sys cache now (build_enriched u app_id e)
        ≡ idle_row re sys cache now (app_label u app_id e)
          ∷ idle_row re sys cache now (app_label u app_id e)
          ∷ ((installed_rows e ws words e.actions
                ++ (quit_row re sys cache now (app_label u app_id e) ∷ []))
              ++ window_rows re sys cache now)
  build_enriched-installed_rows e ws words dir rest u app_id h dirs there valid absent same proper
        written =
      let label = app_label u app_id e in
      let found = resolve-IsInstalled sys e h cache now dir rest dirs there valid absent in
      build_enriched-rows re sys cache now e (no_colon e.id (all_id_chars e.id valid)) u app_id
      ∙ ap
          (λ x.
            idle_row re sys cache now label
            ∷ idle_row re sys cache now label
            ∷ ((x ++ (quit_row re sys cache now label ∷ [])) ++ window_rows re sys cache now))
          (launch_rows-installed_rows e found ws words e.actions
            (λ a k. find_action a e.actions h.distinct k) same proper written)
