-- ===== src/Click/Command/Laws.antt =====
-- How the subcommands end, and what they have done by then.
use noctalia_appmenu.Prelude.{
  ℕ, ◌≡◌, refl, Option, ◌↔◌, ◌≢◌, Bool, true, false, List, [], ◌∷◌, ◌++◌, arith, if◌then◌else◌,
  is_empty, text_eq, Text, Instant,
}
use noctalia_appmenu.Menu.Tree.{MenuItem, children}
use noctalia_appmenu.Menu.Synthetic.{synthetic_service}
use noctalia_appmenu.Atspi.World.{ok, Ref}
use noctalia_appmenu.Atspi.Fetch.{fetch_menu_tree}
use noctalia_appmenu.Desktop.Resolve.{System, ResolveCache}
use noctalia_appmenu.Click.Effect.{
  Effect, slept, probed, acted, stale, failed, panicked, Result, done, failure, Replies,
}
use noctalia_appmenu.Click.Launch.{
  dispatch_synthetic, dispatch_to, dispatch_niri_action, launch_app, launch_action, spawn_detached,
}
use noctalia_appmenu.Click.Launch.Laws.{dispatch_synthetic-ne-stale}
use noctalia_appmenu.Click.Action.{
  probe_then, act, do_action, collapse, expand, expand_and_fetch, expand_realize_delay,
}
use noctalia_appmenu.Click.Command.{
  exit_stale, pre_focus, signal_refresh_active, end_click, run_atspi_click, run_atspi_expand,
}

-- The addressed accessible can be addressed, and does not answer the probe.
abbrev pub IsStale : Replies → Text → Text → Type 0
IsStale re service path =
    let r : Ref = record { service = service; path = path } in
    (text_eq service synthetic_service ≡ false)
    × (re.connects ≡ true)
    × (re.has_path r ≡ true)
    × (re.has_accessible r ≡ true)
    × (re.probe_answers r ≡ false)

-- An expansion that returns a tree has walked the accessible after one `DoAction(0)` and the delay,
-- and has sent a second `DoAction(0)`, which closes the menu again, exactly if the tree has
-- children.
pub expand_and_fetch-done :
    (re : Replies) (service path : Text) (tree : MenuItem)
    → (expand_and_fetch re service path).1 ≡ done tree
    → (fetch_menu_tree re.realized (record { service = service; path = path }) 0 ≡ ok tree)
      × ((expand_and_fetch re service path).0
          ≡ probed (record { service = service; path = path })
            ∷ acted (record { service = service; path = path })
            ∷ slept expand_realize_delay
            ∷ (if is_empty (children tree)
                then []
                else acted (record { service = service; path = path }) ∷ []))
unfolding expand_and_fetch probe_then expand collapse
expand_and_fetch-done re service path tree e = ground arith

end_click-ne-exit_stale :
    (re : Replies) (r : Result (Unit {0}))
    → ((s p : Text) → r ≢ failure (stale s p))
    → (end_click re r).1 ≢ exit_stale
end_click-ne-exit_stale re (done _) h e = absurd (cc)
end_click-ne-exit_stale re (failure (stale s p)) h e = h s p refl
end_click-ne-exit_stale re (failure failed) h e = absurd (cc)
end_click-ne-exit_stale re (failure panicked) h e = absurd (cc)

-- `atspi-click` ends with 2 exactly where its path is no synthetic one, the bus is reached, the
-- proxy of the addressed accessible builds, and it does not answer the probe. By then
-- it has asked the bridge for a refresh, if the session bus is reached, and has sent no `DoAction`.
pub run_atspi_click-IsStale :
    (re : Replies) (sys : System) (cache : ResolveCache) (now : Instant) (service path : Text)
    (winid settle_ms : ℕ)
    → (((run_atspi_click re sys cache now service path winid settle_ms).1 ≡ exit_stale)
        ↔ IsStale re service path)
      × (IsStale re service path
          → (run_atspi_click re sys cache now service path winid settle_ms).0
            ≡ pre_focus re winid settle_ms
              ++ (probed (record { service = service; path = path }) ∷ signal_refresh_active re))
unfolding run_atspi_click do_action probe_then act
run_atspi_click-IsStale re sys cache now service path winid settle_ms = ground (
  arith,
  end_click-ne-exit_stale re (dispatch_synthetic re sys cache now path).1
      (dispatch_synthetic-ne-stale re sys cache now path),
)

-- `atspi-expand` ends with 2 in the same way.
pub run_atspi_expand-IsStale :
    (re : Replies) (sys : System) (cache : ResolveCache) (now : Instant) (service path : Text)
    (winid settle_ms : ℕ)
    → (((run_atspi_expand re sys cache now service path winid settle_ms).1 ≡ exit_stale)
        ↔ IsStale re service path)
      × (IsStale re service path
          → (run_atspi_expand re sys cache now service path winid settle_ms).0
            ≡ pre_focus re winid settle_ms
              ++ (probed (record { service = service; path = path }) ∷ signal_refresh_active re))
unfolding run_atspi_expand expand_and_fetch probe_then expand collapse
run_atspi_expand-IsStale re sys cache now service path winid settle_ms = ground arith

-- The pre-focus comes before all else that a click does, and has no other part in it: whatever niri
-- replies to it, the click goes on in the same way and ends in the same way.
pub run_atspi_click-pre_focus :
    (re : Replies) (focuses : ℕ → Option Bool) (sys : System) (cache : ResolveCache) (now : Instant)
    (service path : Text) (winid settle_ms : ℕ)
    → (rest : List Effect) × ((run_atspi_click re sys cache now service path winid settle_ms).0
        ≡ pre_focus re winid settle_ms ++ rest)
      × ((run_atspi_click
            (record re { focuses = focuses })
            sys
            cache
            now
            service
            path
            winid
            settle_ms).0
          ≡ pre_focus (record re { focuses = focuses }) winid settle_ms ++ rest)
      × ((run_atspi_click
            (record re { focuses = focuses })
            sys
            cache
            now
            service
            path
            winid
            settle_ms).1
          ≡ (run_atspi_click re sys cache now service path winid settle_ms).1)
unfolding run_atspi_click do_action probe_then act dispatch_synthetic dispatch_to
    dispatch_niri_action launch_app launch_action spawn_detached
run_atspi_click-pre_focus re focuses sys cache now service path winid settle_ms =
    let clicked = do_action re sys cache now service path in
    (clicked.0 ++ (end_click re clicked.1).0, refl, refl, refl)
