-- ===== src/Atspi/Menubar/Complete.antt =====
-- A menubar that is there is found and shown whole.
use noctalia_appmenu.Prelude.{
  ℕ, zero, suc, ◌==◌, ◌≤◌, ◌≡◌, refl, sym, ap, ◌∙◌, ◌≢◌, Bool, true, false, List, [], ◌∷◌, ◌++◌,
  map, Option, none, some, arith, find, pos, ℤ, Text, Unicode, Duration,
}
use noctalia_appmenu.Menu.Tree.{MenuItem, MenuFields, node, nil, cons, item, fields}
use noctalia_appmenu.Menu.Flatten.{flatten_qt_wrapper}
use noctalia_appmenu.Menu.Flatten.Leaves.{leaves}
use noctalia_appmenu.Atspi.World.{ok, Ref, World, rounds, child_refs, child_count}
use noctalia_appmenu.Atspi.App.{
  Bus, registry, resolve_focused_frame, matched, scan_pids, after_scan, find_app_for_pid,
}
use noctalia_appmenu.Atspi.Find.{is_menubar}
use noctalia_appmenu.Atspi.Find.Laws.{preorder, find_menubar-preorder}
use noctalia_appmenu.Atspi.Fetch.{fields_of, reserve, fetch_levels, fetch_menu_tree}
use noctalia_appmenu.Atspi.Fetch.Origin.{fetch_children-ne-panic, fetch_levels-ne-panic}
use noctalia_appmenu.Atspi.Fetch.Complete.{shown, fetch_menu_tree-leaves}
use noctalia_appmenu.Atspi.Menubar.{
  menubar_is_empty, fetch_menubar_for_pid_inner, fetch_menubar_for_pid, fetch_budget,
}

abbrev pub has_pid : Bus → ℕ → Ref → Bool
has_pid bus pid c = elim (bus.process_id c.service) [ none ↦ false | some p ↦ p == pid ]

-- The first application of the process.
scan_pids-find :
    (bus : Bus) (pid : ℕ) (candidates cs : List Ref) (app : Ref)
    → find (has_pid bus pid) cs ≡ some app
    → scan_pids bus pid candidates cs ≡ matched app
unfolding scan_pids find
scan_pids-find bus pid candidates [] app e = absurd (ground arith)
scan_pids-find bus pid candidates (c ∷ cs) app e = ground (
  arith,
  scan_pids-find bus pid candidates cs app,
  scan_pids-find bus pid (candidates ++ c ∷ []) cs app,
)

-- The accessibles of an application that is running: every one can be addressed, and none reports a
-- negative number of children.
pub record IsSound (w : World) : Type 0 where
  pub builds : (r : Ref) → w.builds r ≡ true
  pub counts : (r : Ref) → (n : ℕ) × (child_count w r ≡ pos n)

flatten-fields : (m : MenuItem) → fields (flatten_qt_wrapper m) ≡ fields m
unfolding flatten_qt_wrapper
flatten-fields (node f nil) = refl
flatten-fields (node f (cons m nil)) = refl
flatten-fields (node f (cons m (cons n ms))) = refl

-- There a walk returns a tree, whose root is the accessible.
fetch_levels-IsSound :
    (w : World)
    → IsSound w
    → (left : ℕ) (r : Ref)
    → (m : MenuItem) × (fetch_levels w left r ≡ ok m) × (fields m ≡ fields_of w r)
unfolding fetch_levels reserve
fetch_levels-IsSound w h zero r = (item (fields_of w r) [], rw (h.builds r) refl, refl)
fetch_levels-IsSound w h (suc left) r =
    let (n, e) = h.counts r in
    let (ms, f) =
      fetch_children-ne-panic (fetch_levels w left) (fetch_levels-ne-panic w h.counts left)
        (child_refs w r 0 n) in
    (
      flatten_qt_wrapper (item (fields_of w r) ms),
      rw (h.builds r, e, reserve, f) refl,
      flatten-fields (item (fields_of w r) ms),
    )

-- A tree that shows more than its root is not empty.
ne-menubar_is_empty :
    (f : MenuFields) (m : MenuItem)
    → fields m ≡ f
    → leaves m ≢ record f { id = 0 } ∷ []
    → menubar_is_empty m ≡ false
unfolding leaves
ne-menubar_is_empty f (node g nil) e n =
    absurd (n (ap {A = MenuFields} (λ x. record x { id = 0 } ∷ []) e))
ne-menubar_is_empty f (node g (cons m ms)) e n = refl

module _ (u : Unicode) (b : Bus) (pid : ℕ) (hint title : Option Text) where
  -- The bus has an application of the process, whose window that the title chooses has a first
  -- menubar, less than eight levels below, that shows more than itself.
  pub record HasMenubar (app scope menubar : Ref) : Type 0 where
    pub has_dbus : b.has_dbus ≡ true
    pub sound : IsSound b.world
    pub apps : ℤ
    pub registered : b.world.read_child_count registry ≡ some apps
    pub owner :
        find (has_pid b pid) (map (λ c. c.1) (child_refs b.world registry 0 (rounds apps)))
        ≡ some app
    pub window : resolve_focused_frame b.world app title ≡ some scope
    pub first : find (is_menubar b.world) (preorder b.world 8 scope) ≡ some menubar
    pub more : shown b.world 3 menubar ≢ fields_of b.world menubar ∷ []

  find_app_for_pid-HasMenubar :
      (app scope menubar : Ref)
      → HasMenubar app scope menubar
      → find_app_for_pid u b pid hint title ≡ ok (some scope)
  unfolding find_app_for_pid after_scan
  find_app_for_pid-HasMenubar app scope menubar h = ground (
    arith,
    h.has_dbus,
    h.sound.builds registry,
    h.registered,
    h.window,
    scan_pids-find b pid [] (map (λ c. c.1) (child_refs b.world registry 0 (rounds h.apps))) app
        h.owner,
  )

  -- Where the bus has an application of the focused process, every accessible can be addressed and
  -- none reports a negative number of children, and the window that the title chooses has a menubar
  -- less than eight levels below it that shows more than itself, a walk within the budget returns a
  -- menu, and its leaves are exactly those of the first such menubar, four levels deep, in their
  -- order.
  pub fetch_menubar_for_pid-HasMenubar :
      (took : Duration) (app scope menubar : Ref)
      → took ≤ fetch_budget
      → HasMenubar app scope menubar
      → (m : MenuItem) × (fetch_menubar_for_pid u (some b) took pid hint title ≡ ok (some m))
        × (leaves m ≡ shown b.world 3 menubar)
  unfolding fetch_menubar_for_pid fetch_menubar_for_pid_inner fetch_menu_tree fields_of
  fetch_menubar_for_pid-HasMenubar took app scope menubar soon h =
      let (m, walked, root) = fetch_levels-IsSound b.world h.sound 3 menubar in
      let same = fetch_menu_tree-leaves b.world menubar 0 m walked in
      let nonempty =
        ne-menubar_is_empty (fields_of b.world menubar) m root (λ e. h.more (sym same ∙ e)) in
      (
        m,
        ground (
          arith,
          find_app_for_pid-HasMenubar app scope menubar h,
          find_menubar-preorder b.world scope h.sound.builds,
          h.first,
          walked,
          nonempty,
        ),
        same,
      )
