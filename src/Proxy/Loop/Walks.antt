-- ===== src/Proxy/Loop/Walks.antt =====
-- When a round walks the accessibility tree.
use noctalia_appmenu.Prelude.{
  ◌≡◌, refl, ◌≢◌, Bool, true, false, Option, none, some, arith, Text, ap, ◌∙◌, Duration,
  if◌then◌else◌,
}
use noctalia_appmenu.Menu.Tree.{MenuItem}
use noctalia_appmenu.Config.{Config}
use noctalia_appmenu.Desktop.Resolve.{System}
use noctalia_appmenu.Atspi.Skip.{should_skip}
use noctalia_appmenu.Atspi.Cache.{get, put}
use noctalia_appmenu.Proxy.Write.{Payload}
use noctalia_appmenu.Proxy.Loop.{
  Bridge, Round, Walk, walked, eager_write, publish_props, resolve_menu, after_walk, final_write,
  round, eager_choice, final_choice, focus_title,
}

module _ (cfg : Config) (sys : System) (to_string : Payload → Text) where
  resolve_menu-cached :
      (r : Round) (s : Bridge) (cached : Option MenuItem) (other : Option Text → Walk)
      → get s.menus r.cache_at r.snapshot.app_id r.snapshot.focus_pid r.snapshot.focus_winid
        ≡ some cached
      → resolve_menu cfg sys to_string r s
        ≡ resolve_menu cfg sys to_string (record r { walk = other }) s
  unfolding resolve_menu
  resolve_menu-cached r s cached other e = rw e refl

  finish : Round → Bridge → Bridge × Option MenuItem → Bridge × Bool
  finish r published found =
      if r.signals_sent
      then (final_write cfg sys to_string r found.0 found.1, true)
      else (published, false)

  finish-sent :
      (r : Round) (published : Bridge) (found : Bridge × Option MenuItem)
      → r.signals_sent ≡ true
      → (finish r published found).0 ≡ final_write cfg sys to_string r found.0 found.1
  unfolding finish
  finish-sent r published found sent = ground arith

  -- What a walk would return has a part in a round only through the menu that it resolves.
  pub round-resolve_menu :
      (r : Round) (s : Bridge) (other : Option Text → Walk)
      → resolve_menu cfg sys to_string r
          (publish_props cfg sys to_string r (eager_write cfg sys to_string r s))
        ≡ resolve_menu cfg sys to_string
            (record r { walk = other })
            (publish_props cfg sys to_string r (eager_write cfg sys to_string r s))
      → round cfg sys to_string r s ≡ round cfg sys to_string (record r { walk = other }) s
  unfolding round eager_write publish_props final_write eager_choice final_choice finish
  round-resolve_menu r s other same =
      let published = publish_props cfg sys to_string r (eager_write cfg sys to_string r s) in
      ap (λ found. finish r published found) same

  -- While the walk of the focused window is cached, a round does not look at the accessibility
  -- tree: its result is the same whatever a walk would return. That holds for a `RefreshActive`
  -- too.
  pub round-cached :
      (r : Round) (s : Bridge) (cached : Option MenuItem) (other : Option Text → Walk)
      → get s.menus r.cache_at r.snapshot.app_id r.snapshot.focus_pid r.snapshot.focus_winid
        ≡ some cached
      → round cfg sys to_string r s ≡ round cfg sys to_string (record r { walk = other }) s
  unfolding eager_write publish_props
  round-cached r s cached other e = round-resolve_menu r s other (
      resolve_menu-cached r (publish_props cfg sys to_string r (eager_write cfg sys to_string r s))
        cached other e)

  -- The round finds the tree unskipped and uncached, and its walk returns `menu`.
  abbrev pub Walks : Round → Bridge → Option MenuItem → Duration → Type 0
  Walks r s menu took =
      (r.snapshot.focus_pid ≢ 0)
      × (should_skip s.learned r.skip_at r.snapshot.app_id ≡ false)
      × (get s.menus r.cache_at r.snapshot.app_id r.snapshot.focus_pid r.snapshot.focus_winid
          ≡ none)
      × (r.walk (focus_title cfg sys to_string r.snapshot) ≡ walked menu took)

  resolve_menu-Walks :
      (r : Round) (s : Bridge) (menu : Option MenuItem) (took : Duration)
      → Walks r s menu took
      → resolve_menu cfg sys to_string r s ≡ after_walk cfg sys to_string r s (walked menu took)
  unfolding resolve_menu
  resolve_menu-Walks r s menu took (p, q, e, w) = ground arith

  pub round-Walks :
      (r : Round) (s : Bridge) (menu : Option MenuItem) (took : Duration)
      → r.signals_sent ≡ true
      → Walks r s menu took
      → (round cfg sys to_string r s).0
        ≡ final_write cfg sys to_string r
            (after_walk cfg sys to_string r
              (publish_props cfg sys to_string r (eager_write cfg sys to_string r s))
              (walked menu took)).0
            menu
  unfolding round eager_write publish_props final_write eager_choice final_choice finish after_walk
  round-Walks r s menu took sent h =
      let published = publish_props cfg sys to_string r (eager_write cfg sys to_string r s) in
      ap (λ found. (finish r published found).0) (resolve_menu-Walks r published menu took h)
      ∙ finish-sent r published (after_walk cfg sys to_string r published (walked menu took)) sent

  stored :
      (r : Round) (s : Bridge) (menu : Option MenuItem) (took : Duration)
      → (final_write cfg sys to_string r
          (after_walk cfg sys to_string r
            (publish_props cfg sys to_string r (eager_write cfg sys to_string r s))
            (walked menu took)).0
          menu).menus
        ≡ put s.menus r.learned_at r.snapshot.app_id r.snapshot.focus_pid r.snapshot.focus_winid
            menu
  unfolding final_write after_walk publish_props eager_write
  stored r s menu took = refl

  -- What a round that walks leaves in the menu cache.
  pub round-stored :
      (r : Round) (s : Bridge) (menu : Option MenuItem) (took : Duration)
      → r.signals_sent ≡ true
      → Walks r s menu took
      → (round cfg sys to_string r s).0.menus
        ≡ put s.menus r.learned_at r.snapshot.app_id r.snapshot.focus_pid r.snapshot.focus_winid
            menu
  round-stored r s menu took sent h =
      ap (λ b. b.menus) (round-Walks r s menu took sent h) ∙ stored r s menu took
