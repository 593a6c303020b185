-- ===== src/Desktop/Resolve/Tiers.antt =====
-- The scan of `resolve_in` against its tiers: what each tier is a search of, and their order.
use noctalia_appmenu.Prelude.{
  ◌≡◌, refl, ◌∙◌, inl, inr, Bool, Option-cases, List, [], ◌∷◌, ◌++◌, Option, none, some, arith,
  if◌then◌else◌, find, trim, Text, Unicode,
}
use noctalia_appmenu.Desktop.Entry.{DesktopEntry}
use noctalia_appmenu.Desktop.Resolve.{
  join, System, is_valid_desktop_id, normalize, read_candidate, desktop_stem, eq_ignore_ascii_case,
  is_some_and, Best, exec_matches, fuzzy_matches, is_none, consider, scan_names, scan_dirs, direct,
  or, resolve_in,
}

-- The displayable entries of a directory, in the order of its names.
unfoldable pub entries_in : System → Text → List Text → List DesktopEntry
entries_in sys dir [] = []
entries_in sys dir (name ∷ rest) = elim (desktop_stem name) [
  | none ↦ entries_in sys dir rest
  | some stem ↦ elim (read_candidate sys (join dir name) stem) [
    | none ↦ entries_in sys dir rest
    | some parsed ↦ parsed ∷ entries_in sys dir rest
  ]
]

abbrev listed : System → Text → Option (List Text) → List DesktopEntry
listed sys dir none = []
listed sys dir (some names) = entries_in sys dir names

-- The displayable entries of all directories that can be read, in order.
unfoldable pub entries : System → List Text → List DesktopEntry
entries sys [] = []
entries sys (dir ∷ rest) = listed sys dir (sys.files.read_dir dir) ++ entries sys rest

-- `StartupWMClass` is the `app_id`, up to the case of ASCII letters.
abbrev pub class_matches : Text → DesktopEntry → Bool
class_matches app_id e = is_some_and e.startup_wm_class (λ w. eq_ignore_ascii_case w app_id)

-- The tiers: the class, then the program's name, then the id or the name.
abbrev pub by_tiers : Unicode → Text → List DesktopEntry → Option DesktopEntry
by_tiers u app_id es = or (find (class_matches app_id) es) (
    or (find (exec_matches u (normalize u app_id)) es)
      (find (fuzzy_matches u (normalize u app_id)) es))

module _ (u : Unicode) (app_id : Text) where
  consider_all : Best → List DesktopEntry → Best
  consider_all best [] = best
  consider_all best (e ∷ es) = consider_all (consider u app_id best e) es

  abbrev pick : Best → Option DesktopEntry
  pick best = or best.by_wmclass (or best.by_exec best.by_fuzzy)

  -- what the tiers choose, given what was found before
  abbrev pick_from : Best → List DesktopEntry → Option DesktopEntry
  pick_from best es = or (or best.by_wmclass (find (class_matches app_id) es)) (
      or (or best.by_exec (find (exec_matches u (normalize u app_id)) es))
        (or best.by_fuzzy (find (fuzzy_matches u (normalize u app_id)) es)))

  pick_from-consider :
      (best : Best) (e : DesktopEntry) (es : List DesktopEntry)
      → pick_from (consider u app_id best e) es ≡ pick_from best (e ∷ es)
  unfolding consider find
  pick_from-consider best e es = ground arith

  pick-consider_all :
      (best : Best) (es : List DesktopEntry) → pick (consider_all best es) ≡ pick_from best es
  unfolding consider_all find
  pick-consider_all best [] = ground arith
  pick-consider_all best (e ∷ es) =
      pick-consider_all (consider u app_id best e) es ∙ pick_from-consider best e es

  consider_all-append :
      (best : Best) (es fs : List DesktopEntry)
      → consider_all best (es ++ fs) ≡ consider_all (consider_all best es) fs
  unfolding consider_all
  consider_all-append best [] fs = refl
  consider_all-append best (e ∷ es) fs = consider_all-append (consider u app_id best e) es fs

scan_names-consider_all :
    (sys : System) (app_id dir : Text) (best : Best) (names : List Text)
    → scan_names sys app_id dir best names
      ≡ consider_all sys.unicode app_id best (entries_in sys dir names)
unfolding scan_names entries_in consider_all
scan_names-consider_all sys app_id dir best [] = refl
scan_names-consider_all sys app_id dir best (name ∷ rest) =
    elim (Option-cases (desktop_stem name)) [
      | inl n ↦ rw (n, entries_in) (scan_names-consider_all sys app_id dir best rest)
      | inr (stem, e) ↦ elim (Option-cases (read_candidate sys (join dir name) stem)) [
        | inl n ↦ rw (e, n, entries_in) (scan_names-consider_all sys app_id dir best rest)
        | inr (parsed, p) ↦
            rw (e, p, entries_in)
              (scan_names-consider_all sys app_id dir (consider sys.unicode app_id best parsed)
                rest)
      ]
    ]

-- The directories after one with a match by class are not read, and would not be chosen from.
pick_early :
    (u : Unicode) (app_id : Text) (next later : Best) (es : List DesktopEntry)
    → pick u app_id later ≡ pick u app_id (consider_all u app_id next es)
    → pick u app_id (if is_none next.by_wmclass then later else next)
      ≡ pick u app_id (consider_all u app_id next es)
pick_early u app_id next later es h = ground (arith, pick-consider_all u app_id next es)

scan_dirs-pick :
    (sys : System) (app_id : Text) (best : Best) (dirs : List Text)
    → pick sys.unicode app_id (scan_dirs sys app_id best dirs)
      ≡ pick sys.unicode app_id (consider_all sys.unicode app_id best (entries sys dirs))
unfolding scan_dirs entries consider_all
scan_dirs-pick sys app_id best [] = refl
scan_dirs-pick sys app_id best (dir ∷ rest) = elim (Option-cases (sys.files.read_dir dir)) [
  | inl n ↦ rw (n, scan_dirs, entries) (scan_dirs-pick sys app_id best rest)
  | inr (names, e) ↦
      let u = sys.unicode in
      let next = scan_names sys app_id dir best names in
      rw
        (
          e,
          scan_dirs,
          entries,
          consider_all-append u app_id best (entries_in sys dir names) (entries sys rest),
          ← scan_names-consider_all sys app_id dir best names,
        )
        (pick_early u app_id next (scan_dirs sys app_id next rest) (entries sys rest)
          (scan_dirs-pick sys app_id next rest))
]

-- What a lookup finds, described without its loops: for a valid id, the entry of the file of that
-- very name, or else, among all displayable entries of the directories in order, the first with the
-- class, or else the first whose program has the name, or else the first whose id or name is it;
-- and nothing for an id that is not valid. That the scan stops early changes nothing.
pub resolve_in-tiers :
    (sys : System) (dirs : List Text) (app_id : Text)
    → resolve_in sys dirs app_id ≡ (
        if is_valid_desktop_id (trim app_id)
        then or
            (direct sys (trim app_id) dirs)
            (by_tiers sys.unicode (trim app_id) (entries sys dirs))
        else none)
unfolding resolve_in
resolve_in-tiers sys dirs app_id =
    let id = trim app_id in
    let nothing : Best = record { by_wmclass = none; by_exec = none; by_fuzzy = none } in
    ground (
      arith,
      scan_dirs-pick sys id nothing dirs
          ∙ pick-consider_all sys.unicode id nothing (entries sys dirs),
    )
