-- ===== src/Atspi/Menubar/Laws.antt =====
-- Where a menu that `fetch_menubar_for_pid` returns comes from.
use noctalia_appmenu.Prelude.{
  ℕ, ◌≤◌, ◌≡◌, refl, ◌⊎◌, false, Option, none, some, arith, Text, Unicode, Duration,
}
use noctalia_appmenu.Menu.Tree.{MenuItem, Everywhere}
use noctalia_appmenu.Menu.Flatten.Laws.{IsFlatEverywhere}
use noctalia_appmenu.Atspi.World.{Outcome, ok, err, panic, ◌>>=◌, Ref, World}
use noctalia_appmenu.Atspi.App.{Bus, find_app_for_pid}
use noctalia_appmenu.Atspi.App.Laws.{Corroborated, find_app_for_pid-owner}
use noctalia_appmenu.Atspi.Find.{find_menubar}
use noctalia_appmenu.Atspi.Find.Laws.{Found, find_menubar-Found}
use noctalia_appmenu.Atspi.Fetch.{fetch_menu_tree, max_fetch_depth}
use noctalia_appmenu.Atspi.Fetch.Complete.{shown, fetch_menu_tree-leaves}
use noctalia_appmenu.Menu.Flatten.Leaves.{leaves}
use noctalia_appmenu.Atspi.Fetch.Laws.{
  fetch_menu_tree-IsFlatEverywhere, depth, depth-fetch_menu_tree,
}
use noctalia_appmenu.Atspi.Fetch.Origin.{Names, fetch_menu_tree-Names}
use noctalia_appmenu.Atspi.Menubar.{
  menubar_is_empty, keep_menubar, walk_menubar, walk_app, fetch_menubar_for_pid_inner,
  fetch_menubar_for_pid, fetch_budget,
}

bind-ok :
    {A B : Type 0} (o : Outcome A) (f : A → Outcome B) (b : B)
    → o >>= f ≡ ok b
    → (a : A) × (o ≡ ok a) × (f a ≡ ok b)
bind-ok (ok a) f b e = (a, refl, e)
bind-ok err f b e = absurd (cc)
bind-ok panic f b e = absurd (cc)

-- A menu that may be published: what the walk of a menubar that stands below the application's
-- accessible returns, with the menubar's own leaves, not empty and of at most 4 levels, its root
-- included.
abbrev pub IsWalkOf : World → Ref → MenuItem → Type 0
IsWalkOf w app m =
    (menubar : Ref) × Found w app menubar
    × (fetch_menu_tree w menubar 0 ≡ ok m)
    × (leaves m ≡ shown w max_fetch_depth menubar)
    × Everywhere (Names w menubar) m
    × IsFlatEverywhere m
    × (depth m ≤ 4)
    × (menubar_is_empty m ≡ false)

walk_menubar-some :
    (w : World) (app : Ref) (found : Option Ref) (m : MenuItem)
    → ((menubar : Ref) → found ≡ some menubar → Found w app menubar)
    → walk_menubar w found ≡ ok (some m)
    → IsWalkOf w app m
walk_menubar-some w app none m h e = absurd (cc)
walk_menubar-some w app (some menubar) m h e =
    let (tree, walked, kept) = bind-ok (fetch_menu_tree w menubar 0) keep_menubar (some m) e in
    let nonempty : menubar_is_empty tree ≡ false = ground arith in
    let same : tree ≡ m = ground arith in
    rw (← same) (
      menubar,
      h menubar refl,
      walked,
      fetch_menu_tree-leaves w menubar 0 tree walked,
      fetch_menu_tree-Names w menubar 0 tree walked,
      fetch_menu_tree-IsFlatEverywhere w menubar 0 tree walked,
      depth-fetch_menu_tree w menubar tree walked,
      nonempty,
    )

walk_app-some :
    (w : World) (found : Option Ref) (m : MenuItem)
    → walk_app w found ≡ ok (some m)
    → (app : Ref) × (found ≡ some app) × IsWalkOf w app m
walk_app-some w none m e = absurd (cc)
walk_app-some w (some app) m e =
    let (menubar, searched, rest) = bind-ok (find_menubar w app 0) (walk_menubar w) (some m) e in
    (
      app,
      refl,
      walk_menubar-some w app menubar m
          (λ mb same. find_menubar-Found w app mb 0 (rw same at searched)) rest,
    )

-- A menu that is returned comes from a connection that has the focused process, or from that of an
-- application of the registry whose own name fuzzily matches the `app_id`: it is what the walk of a
-- menubar returns that stands below the accessible found there. Its leaves are exactly those of
-- that menubar, cut at the depth, in their order; every item's service, path and label are those of
-- an accessible below the menubar, and no Qt wrapper is left. It has children, and at most 4
-- levels, its root included. The walk has kept within its budget.
pub fetch_menubar_for_pid-IsWalkOf :
    (u : Unicode) (bus : Option Bus) (took : Duration) (pid : ℕ) (hint title : Option Text)
    (m : MenuItem)
    → fetch_menubar_for_pid u bus took pid hint title ≡ ok (some m)
    → (took ≤ fetch_budget)
      × ((b : Bus) × (bus ≡ some b)
          × ((app : Ref) × IsWalkOf b.world app m
              × ((b.process_id app.service ≡ some pid)
                  ⊎ ((h : Text) × (hint ≡ some h) × Corroborated u b.world h app.service))))
unfolding fetch_menubar_for_pid fetch_menubar_for_pid_inner
fetch_menubar_for_pid-IsWalkOf u none took pid hint title m e = absurd (ground arith)
fetch_menubar_for_pid-IsWalkOf u (some b) took pid hint title m e =
    let within : took ≤ fetch_budget = ground arith in
    let inner : (find_app_for_pid u b pid hint title >>= walk_app b.world) ≡ ok (some m) =
      ground arith in
    let (found, scanned, rest) =
      bind-ok (find_app_for_pid u b pid hint title) (walk_app b.world) (some m) inner in
    let (app, same, walk) = walk_app-some b.world found m rest in
    let owner = find_app_for_pid-owner u b pid hint title app (rw same at scanned) in
    (within, (b, refl, (app, walk, owner)))
