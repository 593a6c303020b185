-- ===== src/Desktop/Resolve.antt =====
-- `is_valid_desktop_id`, `resolve_in` and `resolve`: from an `app_id` to its `.desktop` entry. The
-- file system is a parameter.
pub mod Confined
pub mod Memoised
pub mod Tiers
use noctalia_appmenu.Prelude.{
  ℕ, ◌+◌, ◌==◌, Bool, true, false, not, ◌&&◌, ◌||◌, List, [], ◌∷◌, ◌++◌, map, Option, none, some,
  if◌then◌else◌, is_empty, retain, all, ltb, leb, byte_len, text_eq, trim, strip_prefix,
  strip_suffix, starts_with, contains_char, Text, codes, Unicode, Duration, Instant, from_secs,
  elapsed,
}
use noctalia_appmenu.Prelude.Str.Split.{split, rsplit_once}
use noctalia_appmenu.Prelude.Map.{Map, insert, text_key, Mutex, locked}
use noctalia_appmenu.Desktop.Entry.{DesktopEntry, Env, non_empty_var, is_displayable, parse_entry}
use noctalia_appmenu.Desktop.Exec.{exec_to_argv}

-- `Path::join`: an absolute name replaces the directory.
unfoldable pub join : Text → Text → Text
join dir name =
    if starts_with (codes "/") name || is_empty dir
    then name
    else elim (strip_suffix (codes "/") dir) [ some _ ↦ dir ++ name | none ↦ dir ++ (b'/' ∷ name) ]

-- The files: which paths are regular files, their contents where they can be read as text, and
-- the names in a directory that can be read.
pub record Files : Type 0 where
  pub is_file : Text → Bool
  pub read_to_string : Text → Option Text
  pub read_dir : Text → Option (List Text)

-- What a lookup depends on: the case tables, the environment and the files.
pub record System : Type 0 where
  pub unicode : Unicode
  pub env : Env
  pub files : Files

unfoldable pub is_ascii_alphanumeric : ℕ → Bool
is_ascii_alphanumeric c =
    leb b'0' c && leb c b'9' || (leb b'A' c && leb c b'Z' || leb b'a' c && leb c b'z')

unfoldable pub is_valid_desktop_id : Text → Bool
is_valid_desktop_id id =
    not (is_empty id)
    && (leb (byte_len id) 255
        && (not (text_eq id (codes ".."))
            && all (λ c. is_ascii_alphanumeric c || (c == b'.' || (c == b'-' || c == b'_'))) id))

-- `Option::or_else` on a variable: `XDG_DATA_HOME`, or else the default below `HOME`, which may be
-- set to the empty text.
abbrev data_home : Env → Option Text
data_home env = elim (non_empty_var env (codes "XDG_DATA_HOME")) [
  | some p ↦ some p
  | none ↦ elim (env (codes "HOME")) [
    | none ↦ none
    | some h ↦ some (join (join h (codes ".local")) (codes "share"))
  ]
]

unfoldable pub app_dirs : Env → List Text
app_dirs env =
    let home : List Text = elim (data_home env) [
      | none ↦ []
      | some h ↦ join h (codes "applications") ∷ []
    ] in
    let data_dirs : Text = elim (non_empty_var env (codes "XDG_DATA_DIRS")) [
      | none ↦ codes "/usr/local/share:/usr/share"
      | some d ↦ d
    ] in
    home
    ++ map (λ d. join d (codes "applications"))
        (retain (λ d. not (is_empty d)) (split b':' data_dirs))

unfoldable pub normalize : Unicode → Text → Text
normalize u s =
    let lower = u.to_lowercase (trim s) in
    elim (rsplit_once b'.' lower) [
      | some p ↦ if contains_char b'.' p.0 then p.1 else lower
      | none ↦ lower
    ]

unfoldable pub read_candidate : System → Text → Text → Option DesktopEntry
read_candidate sys path id = elim (sys.files.read_to_string path) [
  | none ↦ none
  | some content ↦ if not (is_displayable content) then none else parse_entry sys.env content id
]

-- `path.extension() == Some("desktop")` with `path.file_stem()`, on a directory entry's name: the
-- part before the last dot, which is not empty.
unfoldable pub desktop_stem : Text → Option Text
desktop_stem name = elim (rsplit_once b'.' name) [
  | none ↦ none
  | some p ↦
      if not (text_eq name (codes "..")) && (not (is_empty p.0) && text_eq p.1 (codes "desktop"))
      then some p.0
      else none
]

unfoldable pub last_part : List Text → Option Text
last_part [] = none
last_part (p ∷ []) = some p
last_part (p ∷ q ∷ ps) = last_part (q ∷ ps)

-- `Path::file_name`: the last component, if it is a name.
unfoldable pub file_name : Text → Option Text
file_name p =
    elim (last_part (retain (λ c. not (is_empty c || text_eq c (codes "."))) (split b'/' p))) [
      | none ↦ none
      | some c ↦ if text_eq c (codes "..") then none else some c
    ]

-- `char::to_ascii_lowercase`
abbrev pub ascii_lower : ℕ → ℕ
ascii_lower c = if leb b'A' c && leb c b'Z' then c + 32 else c

unfoldable pub eq_ignore_ascii_case : Text → Text → Bool
eq_ignore_ascii_case s t = text_eq (map ascii_lower s) (map ascii_lower t)

-- `is_some_and(p)`
abbrev pub is_some_and : Option Text → (Text → Bool) → Bool
is_some_and none p = false
is_some_and (some s) p = p s

-- The best matches of the scan, one for each tier.
pub record Best : Type 0 where
  pub by_wmclass : Option DesktopEntry
  pub by_exec : Option DesktopEntry
  pub by_fuzzy : Option DesktopEntry

abbrev pub is_none : Option DesktopEntry → Bool
is_none none = true
is_none (some e) = false

abbrev pub first_arg : List Text → Option Text
first_arg [] = none
first_arg (a ∷ rest) = some a

-- whether the program that the entry runs has the application's name
unfoldable pub exec_matches : Unicode → Text → DesktopEntry → Bool
exec_matches u norm_id parsed = elim (first_arg (exec_to_argv parsed.exec)) [
  | none ↦ false
  | some p ↦ is_some_and (file_name p) (λ base. text_eq (normalize u base) norm_id)
]

unfoldable pub fuzzy_matches : Unicode → Text → DesktopEntry → Bool
fuzzy_matches u norm_id parsed =
    text_eq (normalize u parsed.id) norm_id || text_eq (normalize u parsed.name) norm_id

-- What one parsed entry does to the best matches.
unfoldable pub consider : Unicode → Text → Best → DesktopEntry → Best
consider u app_id best parsed =
    let norm_id = normalize u app_id in
    if is_none best.by_wmclass
      && is_some_and parsed.startup_wm_class (λ w. eq_ignore_ascii_case w app_id)
    then record best { by_wmclass = some parsed }
    else record best {
      by_exec =
          if is_none best.by_exec && exec_matches u norm_id parsed
          then some parsed
          else best.by_exec;
      by_fuzzy =
          if is_none best.by_fuzzy && fuzzy_matches u norm_id parsed
          then some parsed
          else best.by_fuzzy;
    }

-- The loop over the names in a directory.
unfoldable pub scan_names : System → Text → Text → Best → List Text → Best
scan_names sys app_id dir best [] = best
scan_names sys app_id dir best (name ∷ rest) =
    let next : Best = elim (desktop_stem name) [
      | none ↦ best
      | some stem ↦ elim (read_candidate sys (join dir name) stem) [
        | none ↦ best
        | some parsed ↦ consider sys.unicode app_id best parsed
      ]
    ] in
    scan_names sys app_id dir next rest

-- The loop over the directories, which a match by class ends.
unfoldable pub scan_dirs : System → Text → Best → List Text → Best
scan_dirs sys app_id best [] = best
scan_dirs sys app_id best (dir ∷ rest) =
    let skipped = scan_dirs sys app_id best rest in
    elim (sys.files.read_dir dir) [
      | none ↦ skipped
      | some names ↦
          let next = scan_names sys app_id dir best names in
          let later = scan_dirs sys app_id next rest in
          if is_none next.by_wmclass then later else next
    ]

-- Pass 1: the file of the very name.
unfoldable pub direct : System → Text → List Text → Option DesktopEntry
direct sys app_id [] = none
direct sys app_id (dir ∷ rest) =
    let later = direct sys app_id rest in
    let candidate = join dir (app_id ++ codes ".desktop") in
    if sys.files.is_file candidate
    then elim (read_candidate sys candidate app_id) [ some e ↦ some e | none ↦ later ]
    else later

-- `a.or(b)`
abbrev pub or : Option DesktopEntry → Option DesktopEntry → Option DesktopEntry
or (some e) other = some e
or none other = other

unfoldable pub resolve_in : System → List Text → Text → Option DesktopEntry
resolve_in sys dirs app_id =
    let id = trim app_id in
    let best =
      scan_dirs sys id (record { by_wmclass = none; by_exec = none; by_fuzzy = none }) dirs in
    if not (is_valid_desktop_id id)
    then none
    else or (direct sys id dirs) (or best.by_wmclass (or best.by_exec best.by_fuzzy))

-- `RESOLVE_TTL`
abbrev pub resolve_ttl : Duration
resolve_ttl = from_secs 60

pub record Memo : Type 0 where
  pub entry : Option DesktopEntry
  pub at : Instant

-- `RESOLVE_CACHE`
abbrev pub ResolveCache : Type 0
ResolveCache = Mutex (Map Text Memo)

-- a memo that is still young enough
abbrev pub fresh_memo : ResolveCache → Instant → Text → Option Memo
fresh_memo cache now key = if cache.poisoned then none else elim (cache.value key) [
  | none ↦ none
  | some m ↦ if ltb (elapsed now m.at) resolve_ttl then some m else none
]

-- `resolve` at an instant: the new cache, and the entry.
unfoldable pub resolve : System → ResolveCache → Instant → Text → ResolveCache × Option DesktopEntry
resolve sys cache now app_id =
    let key = trim app_id in
    let entry = resolve_in sys (app_dirs sys.env) key in
    if not (is_valid_desktop_id key) then (cache, none) else elim (fresh_memo cache now key) [
      | some m ↦ (cache, m.entry)
      | none ↦ (locked (insert key (record { entry = entry; at = now })) cache, entry)
    ]
