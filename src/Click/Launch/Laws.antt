-- ===== src/Click/Launch/Laws.antt =====
-- What a click on a leaf of the fallback menu runs, and all that any click can run.
use noctalia_appmenu.Prelude.{
  ℕ, ◌≡◌, refl, sym, ◌++◌, if◌then◌else◌, is_empty, ◌≢◌, ◌⊎◌, inl, inr, false, Bool-cases,
  Option-cases, List, [], ◌∷◌, some, arith, contains_char, find, text_eq, Text, codes, Instant,
}
use mathlib.Core.Path.{subst}
use noctalia_appmenu.Prelude.Str.Laws.{text_eq_iff}
use noctalia_appmenu.Prelude.Str.Split.{split_once}
use noctalia_appmenu.Prelude.Str.Split.Laws.{split_once-append, split_once_sound}
use noctalia_appmenu.Menu.Tree.{fields}
use noctalia_appmenu.Menu.Synthetic.{niri_leaf}
use noctalia_appmenu.Desktop.Entry.{DesktopEntry, DesktopAction}
use noctalia_appmenu.Desktop.Exec.{exec_to_argv}
use noctalia_appmenu.Desktop.Resolve.{System, ResolveCache, resolve}
use noctalia_appmenu.Desktop.Fallback.{action_leaf, launch_leaf}
use noctalia_appmenu.Click.Effect.{Effect, niri_action, spawned, stale, failure, Replies}
use noctalia_appmenu.Click.Launch.{
  refused, spawn_detached, run_exec, launch_app, launch_action, dispatch_niri_action, dispatch_to,
  dispatch_synthetic,
}

run_exec-effects :
    (re : Replies) (exec : Text)
    → ((run_exec re exec).0 ≡ []) ⊎ ((run_exec re exec).0 ≡ spawned (exec_to_argv exec) ∷ [])
unfolding spawn_detached
run_exec-effects re exec = started (exec_to_argv exec)
  where
    started :
        (argv : List Text)
        → ((if is_empty argv then refused else spawn_detached re argv).0 ≡ [])
          ⊎ ((if is_empty argv then refused else spawn_detached re argv).0 ≡ spawned argv ∷ [])
    started [] = inl refl
    started (prog ∷ rest) = elim (Bool-cases (re.spawns (prog ∷ rest))) [
      | inl h ↦ inr (rw h refl)
      | inr h ↦ inl (rw h refl)
    ]

module _ (re : Replies) (sys : System) (cache : ResolveCache) (now : Instant) where
  -- A click on a leaf does what the leaf was made for: a launch leaf launches its desktop id, an
  -- action leaf its action of its desktop id, where the id has no colon, and a niri leaf its
  -- action.
  pub dispatch_synthetic-leaf :
      (idx : ℕ) (label id action icon : Text)
      → contains_char b':' id ≡ false
      → (dispatch_synthetic re sys cache now (fields (launch_leaf idx label id icon)).path
          ≡ launch_app re sys cache now id)
        × (dispatch_synthetic re sys cache now (fields (action_leaf idx label id action icon)).path
            ≡ launch_action re sys cache now id action)
        × (dispatch_synthetic re sys cache now (fields (niri_leaf idx label action)).path
            ≡ dispatch_niri_action re sys cache now action)
  unfolding dispatch_synthetic dispatch_to split_once launch_leaf action_leaf niri_leaf text_eq
  dispatch_synthetic-leaf idx label id action icon h =
      (refl, rw (split_once-append b':' id action h) refl, refl)

  -- The program is the one that a path names: the command of the entry that its id resolves to,
  -- or of that entry's action with the path's action id.
  abbrev pub IsFromEntry : Text → List Text → Type 0
  IsFromEntry path argv =
      (id : Text) × (entry : DesktopEntry) × ((resolve sys cache now id).1 ≡ some entry)
      × (((path ≡ codes "xdg:" ++ id) × (argv ≡ exec_to_argv entry.exec))
          ⊎ ((action_id : Text) × (action : DesktopAction) × (path
                ≡ codes "xdg-action:" ++ (id ++ b':' ∷ action_id))
              × (find (λ a. text_eq a.id action_id) entry.actions ≡ some action)
              × (argv ≡ exec_to_argv action.exec)))

  -- No effect, one request to the compositor that the path names, or one program that it names.
  abbrev pub DoesOnly : Text → List Effect → Type 0
  DoesOnly path effects =
      (effects ≡ [])
      ⊎ (((action : Text) × (path ≡ codes "niri:" ++ action) × (effects ≡ niri_action action ∷ []))
          ⊎ ((argv : List Text) × IsFromEntry path argv × (effects ≡ spawned argv ∷ [])))

  launch_app-DoesOnly :
      (id : Text) → DoesOnly (codes "xdg:" ++ id) (launch_app re sys cache now id).0
  unfolding launch_app
  launch_app-DoesOnly id = elim (Option-cases ((resolve sys cache now id).1)) [
    | inl n ↦ inl (rw (launch_app, n) refl)
    | inr (entry, h) ↦ elim (run_exec-effects re entry.exec) [
      | inl k ↦ inl (rw (launch_app, h) k)
      | inr k ↦
          inr
            (inr (exec_to_argv entry.exec, (id, entry, h, inl (refl, refl)), rw (launch_app, h) k))
    ]
  ]

  launch_action-DoesOnly :
      (id action_id : Text)
      → DoesOnly
          (codes "xdg-action:" ++ (id ++ b':' ∷ action_id))
          (launch_action re sys cache now id action_id).0
  unfolding launch_action
  launch_action-DoesOnly id action_id = elim (Option-cases ((resolve sys cache now id).1)) [
    | inl n ↦ inl (rw (launch_action, n) refl)
    | inr (entry, h) ↦ elim (Option-cases (find (λ a. text_eq a.id action_id) entry.actions)) [
      | inl n ↦ inl (rw (launch_action, h, n) refl)
      | inr (action, f) ↦ elim (run_exec-effects re action.exec) [
        | inl k ↦ inl (rw (launch_action, h, f) k)
        | inr k ↦ inr (
            inr (
              exec_to_argv action.exec,
              (id, entry, h, inr (action_id, action, refl, f, refl)),
              rw (launch_action, h, f) k,
            ))
      ]
    ]
  ]

  dispatch_niri_action-DoesOnly :
      (action : Text)
      → DoesOnly (codes "niri:" ++ action) (dispatch_niri_action re sys cache now action).0
  unfolding dispatch_niri_action
  dispatch_niri_action-DoesOnly action = elim (Bool-cases (text_eq action (codes "noop"))) [
    | inl h ↦ inl (rw h refl)
    | inr h ↦ inr (inl (action, refl, rw h refl))
  ]

  dispatch_to-DoesOnly :
      (dispatcher action : Text)
      → DoesOnly (dispatcher ++ b':' ∷ action) (dispatch_to re sys cache now dispatcher action).0
  unfolding dispatch_to
  dispatch_to-DoesOnly dispatcher action = elim (Bool-cases (text_eq dispatcher (codes "niri"))) [
    | inl n ↦
        rw (n, (text_eq_iff dispatcher (codes "niri")).0 n) (dispatch_niri_action-DoesOnly action)
    | inr n ↦ elim (Bool-cases (text_eq dispatcher (codes "xdg"))) [
      | inl x ↦ rw (n, x, (text_eq_iff dispatcher (codes "xdg")).0 x) (launch_app-DoesOnly action)
      | inr x ↦ elim (Bool-cases (text_eq dispatcher (codes "xdg-action"))) [
        | inl a ↦ elim (Option-cases (split_once b':' action)) [
          | inl k ↦ inl (rw (n, x, a, k) refl)
          | inr (p, k) ↦
              rw
                (
                  n,
                  x,
                  a,
                  k,
                  (text_eq_iff dispatcher (codes "xdg-action")).0 a,
                  split_once_sound b':' action p.0 p.1 k,
                )
                (launch_action-DoesOnly p.0 p.1)
        ]
        | inr a ↦ inl (rw (n, x, a) refl)
      ]
    ]
  ]

  -- All that a click on a synthetic item does, whatever its path: nothing; or one request to the
  -- compositor, for the action that the path names; or one program, spawned with the argument
  -- vector that is read from the `Exec` of the entry that the path's id resolves to at the click,
  -- or of that entry's action with the path's action id.
  pub dispatch_synthetic-DoesOnly :
      (path : Text) → DoesOnly path (dispatch_synthetic re sys cache now path).0
  unfolding dispatch_synthetic
  dispatch_synthetic-DoesOnly path = elim (Option-cases (split_once b':' path)) [
    | inl k ↦ inl (rw (dispatch_synthetic, k) refl)
    | inr (p, k) ↦
        subst (λ x. DoesOnly x (dispatch_synthetic re sys cache now path).0)
          (sym (split_once_sound b':' path p.0 p.1 k))
          (rw (dispatch_synthetic, k) (dispatch_to-DoesOnly p.0 p.1))
  ]

  -- A refusal, a launch and a niri action never end as a stale path.
  pub dispatch_synthetic-ne-stale :
      (path s p : Text) → (dispatch_synthetic re sys cache now path).1 ≢ failure (stale s p)
  unfolding dispatch_synthetic dispatch_to dispatch_niri_action launch_app launch_action
      spawn_detached
  dispatch_synthetic-ne-stale path s p = ground arith
