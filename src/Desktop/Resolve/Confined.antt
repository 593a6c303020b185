-- ===== src/Desktop/Resolve/Confined.antt =====
-- Which files a lookup may read.
use noctalia_appmenu.Prelude.{
  ℕ, ◌==◌, ◌≡◌, refl, inl, inr, true, false, ◌||◌, List, [], ◌∷◌, ◌++◌, none, some, arith,
  Bool-cases, Option-cases, all, trim, contains_char, Text, codes,
}
use noctalia_appmenu.Prelude.Str.Split.{rsplit_once}
use noctalia_appmenu.Prelude.Str.Laws.{text_eq_iff}
use noctalia_appmenu.Desktop.Resolve.{
  join, Files, System, is_ascii_alphanumeric, is_valid_desktop_id, read_candidate, desktop_stem,
  Best, consider, scan_names, scan_dirs, direct, resolve_in,
}

-- One path component.
abbrev pub IsComponent : Text → Type 0
IsComponent name = contains_char b'/' name ≡ false

rsplit_once-eq-append :
    (c : ℕ) (s : Text) (p : Text × Text) → rsplit_once c s ≡ some p → s ≡ p.0 ++ c ∷ p.1
unfolding rsplit_once
rsplit_once-eq-append c [] p e = absurd (cc)
rsplit_once-eq-append c (d ∷ s) p e = elim (Option-cases (rsplit_once c s)) [
  | inl n ↦ ground (arith)
  | inr (q, h) ↦ ground (arith, rsplit_once-eq-append c s q h)
]

contains_char-append :
    (c : ℕ) (s t : Text) → contains_char c (s ++ t) ≡ (contains_char c s || contains_char c t)
contains_char-append c [] t = refl
contains_char-append c (d ∷ s) t = ground (arith, contains_char-append c s t)

-- The names that are considered are "<stem>.desktop".
desktop_stem-eq-append :
    (name stem : Text) → desktop_stem name ≡ some stem → name ≡ stem ++ codes ".desktop"
unfolding desktop_stem
desktop_stem-eq-append name stem e = elim (Option-cases (rsplit_once b'.' name)) [
  | inl n ↦ ground (arith)
  | inr (q, h) ↦
      ground (arith, rsplit_once-eq-append b'.' name q h, text_eq_iff q.1 (codes "desktop"))
]

desktop_stem-IsComponent :
    (name stem : Text) → desktop_stem name ≡ some stem → IsComponent name → IsComponent stem
desktop_stem-IsComponent name stem e h =
    ground
      (arith, desktop_stem-eq-append name stem e, contains_char-append b'/' stem (codes ".desktop"))

valid_chars-IsComponent :
    (id : Text)
    → all (λ c. is_ascii_alphanumeric c || (c == b'.' || (c == b'-' || c == b'_'))) id ≡ true
    → IsComponent id
unfolding is_ascii_alphanumeric
valid_chars-IsComponent [] h = refl
valid_chars-IsComponent (c ∷ id) h = ground (arith, valid_chars-IsComponent id)

is_valid_desktop_id-IsComponent : (id : Text) → is_valid_desktop_id id ≡ true → IsComponent id
unfolding is_valid_desktop_id
is_valid_desktop_id-IsComponent id h = ground (arith, valid_chars-IsComponent id)

abbrev pub AllComponents : List Text → Type 0
AllComponents [] = Unit
AllComponents (name ∷ names) = IsComponent name × AllComponents names

-- The two file systems agree on the files "<stem>.desktop" directly in the directories, and list
-- the same names there, each of which is one component.
abbrev pub AgreeBelow : Files → Files → List Text → Type 0
AgreeBelow f g [] = Unit
AgreeBelow f g (dir ∷ rest) =
    ((stem : Text)
      → IsComponent stem
      → (f.is_file (join dir (stem ++ codes ".desktop"))
          ≡ g.is_file (join dir (stem ++ codes ".desktop")))
        × (f.read_to_string (join dir (stem ++ codes ".desktop"))
            ≡ g.read_to_string (join dir (stem ++ codes ".desktop"))))
    × (f.read_dir dir ≡ g.read_dir dir)
    × ((names : List Text) → f.read_dir dir ≡ some names → AllComponents names)
    × AgreeBelow f g rest

module _ (sys : System) (g : Files) where
  -- The same environment with other files.
  abbrev other : System
  other = record sys { files = g }

  read_candidate-agree :
      (path id : Text)
      → sys.files.read_to_string path ≡ g.read_to_string path
      → read_candidate sys path id ≡ read_candidate other path id
  unfolding read_candidate
  read_candidate-agree path id e = rw (e, read_candidate) refl

  direct-agree :
      (id : Text) (dirs : List Text)
      → IsComponent id
      → AgreeBelow sys.files g dirs
      → direct sys id dirs ≡ direct other id dirs
  unfolding direct
  direct-agree id [] c h = refl
  direct-agree id (dir ∷ rest) c (files, listing, components, later) =
      let (is, reads) = files id c in
      ground (
        arith,
        read_candidate-agree (join dir (id ++ codes ".desktop")) id reads,
        direct-agree id rest c later,
      )

  scan_names-agree :
      (id dir : Text) (best : Best) (names : List Text)
      → ((stem : Text)
          → IsComponent stem
          → sys.files.read_to_string (join dir (stem ++ codes ".desktop"))
            ≡ g.read_to_string (join dir (stem ++ codes ".desktop")))
      → AllComponents names
      → scan_names sys id dir best names ≡ scan_names other id dir best names
  unfolding scan_names
  scan_names-agree id dir best [] reads c = refl
  scan_names-agree id dir best (name ∷ rest) reads (here, later) =
      elim (Option-cases (desktop_stem name)) [
        | inl n ↦ rw n (scan_names-agree id dir best rest reads later)
        | inr (stem, e) ↦
            let read = read_candidate-agree (join dir name) stem (
              rw (desktop_stem-eq-append name stem e)
                (reads stem (desktop_stem-IsComponent name stem e here))) in
            rw (e, read)
              (scan_names-agree id dir
                (elim (read_candidate other (join dir name) stem) [
                  | none ↦ best
                  | some parsed ↦ consider sys.unicode id best parsed
                ])
                rest reads later)
      ]

  scan_dirs-agree :
      (id : Text) (best : Best) (dirs : List Text)
      → AgreeBelow sys.files g dirs
      → scan_dirs sys id best dirs ≡ scan_dirs other id best dirs
  unfolding scan_dirs
  scan_dirs-agree id best [] h = refl
  scan_dirs-agree id best (dir ∷ rest) (files, listing, components, later) =
      elim (Option-cases (sys.files.read_dir dir)) [
        | inl n ↦ ground (arith, scan_dirs-agree id best rest later)
        | inr (names, e) ↦ ground (
          arith,
          scan_names-agree id dir best names (λ stem c. (files stem c).1) (components names e),
          scan_dirs-agree id (scan_names sys id dir best names) rest later,
        )
      ]

  -- A lookup depends on no file but those named "<stem>.desktop" directly in the application
  -- directories, whatever `app_id` is, and on the listings of these directories: two file systems
  -- that agree on them give the same entry. The names that a directory lists are single components.
  pub resolve_in-confined :
      (dirs : List Text) (app_id : Text)
      → AgreeBelow sys.files g dirs
      → resolve_in sys dirs app_id ≡ resolve_in other dirs app_id
  unfolding resolve_in
  resolve_in-confined dirs app_id h = elim (Bool-cases (is_valid_desktop_id (trim app_id))) [
    | inl v ↦
        rw
          (
            direct-agree (trim app_id) dirs (is_valid_desktop_id-IsComponent (trim app_id) v) h,
            scan_dirs-agree (trim app_id)
                (record { by_wmclass = none; by_exec = none; by_fuzzy = none }) dirs h,
          )
          refl
    | inr i ↦ rw i refl
  ]
