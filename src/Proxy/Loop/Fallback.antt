-- ===== src/Proxy/Loop/Fallback.antt =====
-- Where no menu can be read, the fallback menu reaches the widget.
use noctalia_appmenu.Prelude.{
  ◌≡◌, refl, ap, ◌∙◌, ◌≢◌, ◌⊎◌, inl, inr, true, false, Option, none, some, arith, Option-cases,
  is_empty, trim, Text, Instant,
}
use noctalia_appmenu.Menu.Tree.{MenuItem, Everywhere}
use noctalia_appmenu.Menu.Synthetic.{synthetic_menu}
use noctalia_appmenu.Config.{Config}
use noctalia_appmenu.Desktop.Entry.{DesktopEntry}
use noctalia_appmenu.Desktop.Resolve.{System, ResolveCache, resolve}
use noctalia_appmenu.Desktop.Fallback.{build_enriched, fallback_menu}
use noctalia_appmenu.Desktop.Fallback.Shape.{IsNumbered}
use noctalia_appmenu.Click.Menus.{fallback_menu-IsNumbered}
use noctalia_appmenu.Proxy.Write.{desktop_fallback, Payload, payload_of}
use noctalia_appmenu.Proxy.Write.Laws.{IsSynced, last_of, write_active_json-IsSynced}
use noctalia_appmenu.Proxy.Loop.{
  Bridge, Round, publish_props, resolve_menu, usable, final_choice, final_write, round,
}
use noctalia_appmenu.Proxy.Loop.Spec.{eager_part, round-final_write}
use noctalia_appmenu.Proxy.Loop.Provenance.{resolve_menu-writer, eager_write-IsSynced}

-- The menu of the desktop entry that an app-id resolves to at an instant, or else the minimal one.
abbrev pub IsFallback : System → ResolveCache → Instant → Text → MenuItem → Type 0
IsFallback sys cache now app_id m =
    ((e : DesktopEntry) × ((resolve sys cache now app_id).1 ≡ some e)
      × (m ≡ build_enriched sys.unicode app_id e))
    ⊎ (((resolve sys cache now app_id).1 ≡ none) × (m ≡ synthetic_menu sys.unicode app_id))

fallback_menu-IsFallback :
    (sys : System) (cache : ResolveCache) (now : Instant) (app_id : Text)
    → is_empty (trim app_id) ≡ false
    → (m : MenuItem) × ((fallback_menu sys cache now app_id).1 ≡ some m)
      × IsFallback sys cache now (trim app_id) m
unfolding fallback_menu
fallback_menu-IsFallback sys cache now app_id named =
    elim (Option-cases ((resolve sys cache now (trim app_id)).1)) [
      | inl n ↦ (synthetic_menu sys.unicode (trim app_id), ground arith, inr (n, refl))
      | inr (e, r) ↦ (build_enriched sys.unicode (trim app_id) e, ground arith, inl (e, r, refl))
    ]

module _ (cfg : Config) (sys : System) (to_string : Payload → Text) where
  -- The state in which a round chooses its menu, and what it has found by then.
  abbrev pub at_choice : Round → Bridge → Bridge × Option MenuItem
  at_choice r s = resolve_menu cfg sys to_string r (eager_part cfg sys to_string r s)

  final_choice-fallback :
      (r : Round) (cache : ResolveCache) (found : Option MenuItem) (m : MenuItem)
      → r.snapshot.focus_pid ≢ 0
      → cfg.desktop_fallback ≡ true
      → usable cfg sys to_string found ≡ none
      → (fallback_menu sys cache r.final_resolve_at r.snapshot.app_id).1 ≡ some m
      → (final_choice cfg sys to_string r cache found).1 ≡ (some m, desktop_fallback)
  unfolding final_choice
  final_choice-fallback r cache found m p on u f = ground arith

  final_write-fallback :
      (r : Round) (s : Bridge) (found : Option MenuItem) (m : MenuItem)
      → (final_choice cfg sys to_string r s.resolved found).1 ≡ (some m, desktop_fallback)
      → r.final_disk.writes ≡ true
      → IsSynced s.writer
      → ((final_write cfg sys to_string r s found).writer.file
          ≡ some (to_string (payload_of r.snapshot (some m) desktop_fallback)))
        × (last_of (final_write cfg sys to_string r s found).writer.pushed
            ≡ some (to_string (payload_of r.snapshot (some m) desktop_fallback)))
  unfolding final_write
  final_write-fallback r s found m c ok h =
      let (f, l, synced) =
        write_active_json-IsSynced to_string r.final_disk r.snapshot (some m) desktop_fallback
          s.writer ok h in
      rw c (f, l)

  -- In a round that finds no menu for the focused application that can be used, whether it skips
  -- the walk, is answered none, or is answered one that is lazily unreadable, the file and the last
  -- payload pushed end with the source `desktop-fallback` and the menu of the desktop entry that
  -- the app-id resolves to, or else the minimal menu, in which the ids of siblings are their
  -- positions. (The fallback is configured, the app-id is not blank, an application is focused, the
  -- round's writes and signals succeed, and before it the body last written, the file and the last
  -- push agree.)
  pub round-IsFallback :
      (r : Round) (s : Bridge)
      → r.eager_disk.writes ≡ true
      → r.final_disk.writes ≡ true
      → r.signals_sent ≡ true
      → IsSynced s.writer
      → r.snapshot.focus_pid ≢ 0
      → cfg.desktop_fallback ≡ true
      → is_empty (trim r.snapshot.app_id) ≡ false
      → usable cfg sys to_string (at_choice r s).1 ≡ none
      → (m : MenuItem) × IsFallback sys
          (at_choice r s).0.resolved
          r.final_resolve_at
          (trim r.snapshot.app_id)
          m
        × Everywhere IsNumbered m
        × ((round cfg sys to_string r s).0.writer.file
            ≡ some (to_string (payload_of r.snapshot (some m) desktop_fallback)))
        × (last_of (round cfg sys to_string r s).0.writer.pushed
            ≡ some (to_string (payload_of r.snapshot (some m) desktop_fallback)))
  unfolding publish_props
  round-IsFallback r s eager_ok final_ok sent h p on named nothing =
      let (next, found) = at_choice r s in
      let (m, f, is_fallback) =
        fallback_menu-IsFallback sys next.resolved r.final_resolve_at r.snapshot.app_id named in
      let synced : IsSynced next.writer =
        rw (resolve_menu-writer cfg sys to_string r (eager_part cfg sys to_string r s))
          (eager_write-IsSynced cfg sys to_string r s eager_ok h) in
      let goes_on = round-final_write cfg sys to_string r s sent in
      let (file, last) =
        final_write-fallback r next found m
          (final_choice-fallback r next.resolved found m p on nothing f) final_ok synced in
      (
        m,
        is_fallback,
        fallback_menu-IsNumbered sys next.resolved r.final_resolve_at r.snapshot.app_id m f,
        ap (λ x. x.0.writer.file) goes_on ∙ file,
        ap (λ x. last_of x.0.writer.pushed) goes_on ∙ last,
      )
