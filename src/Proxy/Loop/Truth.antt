-- ===== src/Proxy/Loop/Truth.antt =====
-- Where the published menu comes from, source by source: the ladder at the end of a round of
-- bridge/src/proxy.rs.
use noctalia_appmenu.Prelude.{
  ◌==◌, ◌≡◌, refl, sym, ap, ◌∙◌, ◌≢◌, ◌⊎◌, inl, inr, true, false, Option, none, some, arith,
  Bool-cases, Option-cases, Text, Duration,
}
use mathlib.Core.Path.{subst}
use noctalia_appmenu.Menu.Tree.{MenuItem}
use noctalia_appmenu.Config.{Config}
use noctalia_appmenu.Desktop.Resolve.{System, ResolveCache}
use noctalia_appmenu.Desktop.Fallback.{fallback_menu}
use noctalia_appmenu.Atspi.Skip.{should_skip}
use noctalia_appmenu.Atspi.Cache.{get}
use noctalia_appmenu.Proxy.Write.{
  MenuSource, atspi, synthetic, desktop_fallback, empty, is_lazy_unreadable, Payload, payload_of,
}
use noctalia_appmenu.Proxy.Write.Laws.{IsSynced, last_of, write_active_json-IsSynced}
use noctalia_appmenu.Proxy.Loop.{
  Bridge, Round, Walk, walked, walk_failed, fallback_choice, eager_write, publish_props,
  resolve_menu, after_walk, usable, final_choice, final_write, round, focus_title,
}
use noctalia_appmenu.Proxy.Loop.Spec.{eager_part, round-final_write}
use noctalia_appmenu.Proxy.Loop.Provenance.{resolve_menu-writer, eager_write-IsSynced}
use noctalia_appmenu.Proxy.Loop.Fallback.{at_choice}

module _ (cfg : Config) (sys : System) (to_string : Payload → Text) where
  -- The round's own find: the application is not skipped, and the menu is the cached one of the
  -- window, or, where there is none, the one that the walk returns.
  abbrev pub IsFound : Round → Bridge → MenuItem → Type 0
  IsFound r s m =
      (r.snapshot.focus_pid ≢ 0)
      × (should_skip s.learned r.skip_at r.snapshot.app_id ≡ false)
      × ((get s.menus r.cache_at r.snapshot.app_id r.snapshot.focus_pid r.snapshot.focus_winid
            ≡ some (some m))
          ⊎ ((get s.menus r.cache_at r.snapshot.app_id r.snapshot.focus_pid r.snapshot.focus_winid
                ≡ none)
              × ((took : Duration) × (r.walk (focus_title cfg sys to_string r.snapshot)
                    ≡ walked (some m) took))))

  after_walk-some :
      (r : Round) (s : Bridge) (found : Walk) (m : MenuItem)
      → (after_walk cfg sys to_string r s found).1 ≡ some m
      → (took : Duration) × (found ≡ walked (some m) took)
  unfolding after_walk
  after_walk-some r s walk_failed m e = absurd (cc)
  after_walk-some r s (walked none took) m e = absurd (cc)
  after_walk-some r s (walked (some a) took) m e = (took, ap (λ x. walked x took) e)

  resolve_menu-IsFound :
      (r : Round) (s : Bridge) (m : MenuItem)
      → (resolve_menu cfg sys to_string r s).1 ≡ some m
      → IsFound r s m
  unfolding resolve_menu
  resolve_menu-IsFound r s m e = elim (Bool-cases (r.snapshot.focus_pid == 0)) [
    | inl p ↦ absurd (ground arith)
    | inr p ↦ elim (Bool-cases (should_skip s.learned r.skip_at r.snapshot.app_id)) [
      | inl k ↦ absurd (ground arith)
      | inr k ↦
          elim (Option-cases (
            get s.menus r.cache_at r.snapshot.app_id r.snapshot.focus_pid r.snapshot.focus_winid)) [
              | inl g ↦ (
                ground arith,
                k,
                inr (
                  g,
                  after_walk-some r s (r.walk (focus_title cfg sys to_string r.snapshot)) m
                      (ground arith),
                ),
              )
              | inr (cached, g) ↦
                  let same : cached ≡ some m = ground arith in
                  (ground arith, k, inl (g ∙ ap some same))
            ]
    ]
  ]

  -- What each source says of the menu beside it.
  abbrev pub IsTrue : Round → Bridge → MenuSource → Option MenuItem → Type 0
  IsTrue r s empty none =
      (r.snapshot.focus_pid ≡ 0)
      ⊎ (usable cfg sys to_string (at_choice cfg sys to_string r s).1 ≡ none)
  IsTrue r s empty (some m) = ⊥
  IsTrue r s atspi none = ⊥
  IsTrue r s atspi (some m) = IsFound r s m × (is_lazy_unreadable m ≡ false)
  IsTrue r s desktop_fallback none = ⊥
  IsTrue r s desktop_fallback (some m) =
      (r.snapshot.focus_pid ≢ 0)
      × (cfg.desktop_fallback ≡ true)
      × (usable cfg sys to_string (at_choice cfg sys to_string r s).1 ≡ none)
      × ((fallback_menu sys (at_choice cfg sys to_string r s).0.resolved r.final_resolve_at
            r.snapshot.app_id).1
          ≡ some m)
  IsTrue r s synthetic menu = ⊥

  usable-some :
      (found : Option MenuItem) (m : MenuItem)
      → usable cfg sys to_string found ≡ some m
      → (found ≡ some m) × (is_lazy_unreadable m ≡ false)
  unfolding usable
  usable-some none m e = absurd (cc)
  usable-some (some a) m e = elim (Bool-cases (is_lazy_unreadable a)) [
    | inl lazy ↦ absurd (ground arith)
    | inr readable ↦ let same : a ≡ m = ground arith in (ap some same, rw (← same) readable)
  ]

  eager_part-IsFound :
      (r : Round) (s : Bridge) (m : MenuItem)
      → IsFound r (eager_part cfg sys to_string r s) m
      → IsFound r s m
  unfolding publish_props eager_write
  eager_part-IsFound r s m h = h

  -- The choice of a round, whose rungs are the four equations.
  choice : Round → Bridge → Option MenuItem × MenuSource
  choice r s =
      (final_choice cfg sys to_string r (at_choice cfg sys to_string r s).0.resolved
        (at_choice cfg sys to_string r s).1).1

  fallback_choice-IsTrue :
      (r : Round) (s : Bridge) (fb : Option MenuItem)
      → r.snapshot.focus_pid ≢ 0
      → cfg.desktop_fallback ≡ true
      → usable cfg sys to_string (at_choice cfg sys to_string r s).1 ≡ none
      → (fallback_menu sys
          (at_choice cfg sys to_string r s).0.resolved
          r.final_resolve_at
          r.snapshot.app_id).1
        ≡ fb
      → IsTrue r s (fallback_choice fb).1 (fallback_choice fb).0
  fallback_choice-IsTrue r s none p on u f = inr u
  fallback_choice-IsTrue r s (some m) p on u f = (p, on, u, f)

  final_choice-enabled :
      (r : Round) (cache : ResolveCache) (found : Option MenuItem)
      → (r.snapshot.focus_pid == 0) ≡ false
      → cfg.desktop_fallback ≡ true
      → usable cfg sys to_string found ≡ none
      → (final_choice cfg sys to_string r cache found).1
        ≡ fallback_choice (fallback_menu sys cache r.final_resolve_at r.snapshot.app_id).1
  unfolding final_choice
  final_choice-enabled r cache found p on u = ground arith

  final_choice-disabled :
      (r : Round) (cache : ResolveCache) (found : Option MenuItem)
      → (r.snapshot.focus_pid == 0) ≡ false
      → cfg.desktop_fallback ≡ false
      → usable cfg sys to_string found ≡ none
      → (final_choice cfg sys to_string r cache found).1 ≡ (none, empty)
  unfolding final_choice
  final_choice-disabled r cache found p off u = ground arith

  choice-IsTrue : (r : Round) (s : Bridge) → IsTrue r s (choice r s).1 (choice r s).0
  unfolding final_choice choice
  choice-IsTrue r s =
      let at = at_choice cfg sys to_string r s in
      elim (Bool-cases (r.snapshot.focus_pid == 0)) [
        | inl p ↦ rw (choice, final_choice, p) (inl (ground arith))
        | inr p ↦ elim (Option-cases (usable cfg sys to_string at.1)) [
          | inr (m, u) ↦
              let (found, readable) = usable-some at.1 m u in
              rw (choice, final_choice, p, u)
                (
                  eager_part-IsFound r s m
                      (resolve_menu-IsFound r (eager_part cfg sys to_string r s) m found),
                  readable,
                )
          | inl u ↦ elim (Bool-cases cfg.desktop_fallback) [
            | inl on ↦
                subst (λ c. IsTrue r s c.1 c.0)
                  (sym (final_choice-enabled r at.0.resolved at.1 p on u))
                  (fallback_choice-IsTrue r s _ (ground arith) on u refl)
            | inr off ↦
                subst (λ c. IsTrue r s c.1 c.0)
                  (sym (final_choice-disabled r at.0.resolved at.1 p off u)) (inr u)
          ]
        ]
      ]

  -- A round in which both writes succeed and the signals are sent, and before which the body last
  -- written, the file and the last push agree, ends with the file, and the last payload pushed to
  -- the widget, of the round's snapshot, and their `source` tells the truth: `atspi` stands beside
  -- the very menu that this round finds for the focused application, which is not skipped, in the
  -- window's cached walk or by a walk, and which is not lazily unreadable; `desktop-fallback`
  -- beside the menu that the desktop files give, only where it is configured, an application is
  -- focused and nothing usable was found; `empty` beside no menu, only with no focus or where
  -- nothing usable was found; and `synthetic` is never published.
  pub round-IsTrue :
      (r : Round) (s : Bridge)
      → r.eager_disk.writes ≡ true
      → r.final_disk.writes ≡ true
      → r.signals_sent ≡ true
      → IsSynced s.writer
      → (menu : Option MenuItem) × (source : MenuSource) × IsTrue r s source menu
        × ((round cfg sys to_string r s).0.writer.file
            ≡ some (to_string (payload_of r.snapshot menu source)))
        × (last_of (round cfg sys to_string r s).0.writer.pushed
            ≡ some (to_string (payload_of r.snapshot menu source)))
  unfolding publish_props final_write choice
  round-IsTrue r s eager_ok final_ok sent h =
      let (next, found) = at_choice cfg sys to_string r s in
      let synced : IsSynced next.writer =
        rw (resolve_menu-writer cfg sys to_string r (eager_part cfg sys to_string r s))
          (eager_write-IsSynced cfg sys to_string r s eager_ok h) in
      let (menu, source) = choice r s in
      let (file, last, _) =
        write_active_json-IsSynced to_string r.final_disk r.snapshot menu source next.writer
          final_ok synced in
      let goes_on = round-final_write cfg sys to_string r s sent in
      (
        menu,
        source,
        choice-IsTrue r s,
        ap (λ x. x.0.writer.file) goes_on ∙ file,
        ap (λ x. last_of x.0.writer.pushed) goes_on ∙ last,
      )
