-- ===== src/Click/Action.antt =====
-- `do_action` and `expand_and_fetch` of bridge/src/atspi.rs.
use noctalia_appmenu.Prelude.{
  ℕ, not, [], ◌∷◌, none, some, if◌then◌else◌, is_empty, text_eq, Text, Instant,
}
use noctalia_appmenu.Menu.Tree.{MenuItem, children}
use noctalia_appmenu.Menu.Synthetic.{synthetic_service}
use noctalia_appmenu.Atspi.World.{Outcome, ok, err, panic, Ref}
use noctalia_appmenu.Atspi.Fetch.{fetch_menu_tree}
use noctalia_appmenu.Desktop.Resolve.{System, ResolveCache}
use noctalia_appmenu.Click.Effect.{
  slept, probed, acted, stale, failed, panicked, done, failure, Ran, after, Replies,
}
use noctalia_appmenu.Click.Launch.{dispatch_synthetic, refused}

-- The steps that both begin with: the connection, the proxy and the probe, which sends an absent
-- accessible off as stale.
unfoldable pub probe_then : {A : Type 0} → Replies → Ref → Ran A → Ran A
probe_then re r next =
    if not re.connects
    then refused
    else if not (re.has_path r)
    then refused
    else if not (re.has_accessible r)
    then refused
    else if re.probe_answers r
    then after (probed r ∷ []) next
    else (probed r ∷ [], failure (stale r.service r.path))

-- `DoAction(0)` on an accessible that answered.
unfoldable pub act : Replies → Ref → Ran (Unit {0})
act re r = if not (re.has_action r) then refused else (
  acted r ∷ [],
  elim (re.do_action r) [
    | none ↦ failure failed
    | some actionable ↦ if actionable then done tt else failure failed
  ],
)

unfoldable pub do_action : Replies → System → ResolveCache → Instant → Text → Text → Ran (Unit {0})
do_action re sys cache now service path =
    if text_eq service synthetic_service
    then dispatch_synthetic re sys cache now path
    else let r : Ref = record { service = service; path = path } in probe_then re r (act re r)

-- What the walk found, collapsed again if it has children.
unfoldable pub collapse : Ref → Outcome MenuItem → Ran MenuItem
collapse r err = refused
collapse r panic = ([], failure panicked)
collapse r (ok tree) = ((if is_empty (children tree) then [] else acted r ∷ []), done tree)

-- `EXPAND_REALIZE_DELAY`
abbrev pub expand_realize_delay : ℕ
expand_realize_delay = 150

unfoldable pub expand : Replies → Ref → Ran MenuItem
expand re r = if not (re.has_action r) then refused else elim (re.do_action r) [
  | none ↦ (acted r ∷ [], failure failed)
  | some _ ↦
      after (acted r ∷ slept expand_realize_delay ∷ [])
        (collapse r (fetch_menu_tree re.realized r 0))
]

unfoldable pub expand_and_fetch : Replies → Text → Text → Ran MenuItem
expand_and_fetch re service path =
    if text_eq service synthetic_service
    then refused
    else let r : Ref = record { service = service; path = path } in probe_then re r (expand re r)
