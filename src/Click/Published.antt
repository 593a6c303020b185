-- ===== src/Click/Published.antt =====
-- The fallback menu that a round publishes, and a later click on it.
use noctalia_appmenu.Prelude.{
  ◌≡◌, ◌≢◌, inl, inr, true, false, Option, List, [], ◌∷◌, ◌++◌, Unicode, none, some, contains_char,
  is_empty, trim, Text, Instant,
}
use noctalia_appmenu.Menu.Tree.{MenuItem}
use noctalia_appmenu.Menu.Synthetic.{pretty_app_label}
use noctalia_appmenu.Config.{Config}
use noctalia_appmenu.Desktop.Entry.{DesktopEntry}
use noctalia_appmenu.Desktop.Resolve.{System, ResolveCache, resolve}
use noctalia_appmenu.Proxy.Write.{desktop_fallback, Payload, payload_of}
use noctalia_appmenu.Proxy.Write.Laws.{IsSynced, last_of}
use noctalia_appmenu.Proxy.Loop.{Bridge, Round, usable, round}
use noctalia_appmenu.Proxy.Loop.Fallback.{IsFallback, at_choice, round-IsFallback}
use noctalia_appmenu.Click.Effect.{Replies}
use noctalia_appmenu.Click.Rows.{
  Row, app_label, rows, idle_row, launch_rows, window_rows, quit_row, build_enriched-rows,
  synthetic_menu-rows,
}

-- The click is run by another process, with its own view of the system.
module _ (re : Replies) (at_click : System) (memos : ResolveCache) (then : Instant) where
  -- The rows of the menu of an entry, or, where there is none, of the minimal menu.
  abbrev pub fallback_rows : Unicode → Text → Option DesktopEntry → List Row
  fallback_rows u app_id none =
      idle_row re at_click memos then (pretty_app_label u app_id)
      ∷ idle_row re at_click memos then (pretty_app_label u app_id)
      ∷ quit_row re at_click memos then (pretty_app_label u app_id)
      ∷ window_rows re at_click memos then
  fallback_rows u app_id (some e) =
      idle_row re at_click memos then (app_label u app_id e)
      ∷ idle_row re at_click memos then (app_label u app_id e)
      ∷ ((launch_rows re at_click memos then e e.actions
            ++ (quit_row re at_click memos then (app_label u app_id e) ∷ []))
          ++ window_rows re at_click memos then)

  IsFallback-rows :
      (sys : System) (cache : ResolveCache) (now : Instant) (app_id : Text) (m : MenuItem)
      → ((e : DesktopEntry)
          → (resolve sys cache now app_id).1 ≡ some e
          → contains_char b':' e.id ≡ false)
      → IsFallback sys cache now app_id m
      → rows re at_click memos then m
        ≡ fallback_rows sys.unicode app_id (resolve sys cache now app_id).1
  IsFallback-rows sys cache now app_id m plain (inl (e, r, same)) =
      rw (same, r) (build_enriched-rows re at_click memos then e (plain e r) sys.unicode app_id)
  IsFallback-rows sys cache now app_id m plain (inr (n, same)) =
      rw (same, n) (synthetic_menu-rows re at_click memos then sys.unicode app_id)

  -- In a round that finds no usable menu for the focused application, the file and the last payload
  -- pushed end with a fallback menu, and a later click on any of its items does exactly this, in
  -- the items' order: nothing on the menu and its submenus; where the app-id resolves to an entry,
  -- a launch of each action that the entry declares, or of the entry itself where it declares none
  -- and its command is not blank; the compositor's close on "Quit", and its ten actions in the
  -- window submenu. A launch resolves the entry's id anew at the click. (The fallback is
  -- configured, the app-id is not blank, the entry's id has no colon, the round's writes and
  -- signals succeed, and before it the body last written, the file and the last push agree.)
  pub round-fallback_rows :
      (cfg : Config) (sys : System) (to_string : Payload → Text) (r : Round) (s : Bridge)
      → r.eager_disk.writes ≡ true
      → r.final_disk.writes ≡ true
      → r.signals_sent ≡ true
      → IsSynced s.writer
      → r.snapshot.focus_pid ≢ 0
      → cfg.desktop_fallback ≡ true
      → is_empty (trim r.snapshot.app_id) ≡ false
      → usable cfg sys to_string (at_choice cfg sys to_string r s).1 ≡ none
      → ((e : DesktopEntry)
          → (resolve sys
              (at_choice cfg sys to_string r s).0.resolved
              r.final_resolve_at
              (trim r.snapshot.app_id)).1
            ≡ some e
          → contains_char b':' e.id ≡ false)
      → (m : MenuItem) × (rows re at_click memos then m
          ≡ fallback_rows sys.unicode
              (trim r.snapshot.app_id)
              (resolve sys
                (at_choice cfg sys to_string r s).0.resolved
                r.final_resolve_at
                (trim r.snapshot.app_id)).1)
        × ((round cfg sys to_string r s).0.writer.file
            ≡ some (to_string (payload_of r.snapshot (some m) desktop_fallback)))
        × (last_of (round cfg sys to_string r s).0.writer.pushed
            ≡ some (to_string (payload_of r.snapshot (some m) desktop_fallback)))
  round-fallback_rows cfg sys to_string r s eager_ok final_ok sent h p on named nothing plain =
      let (m, is_fallback, numbered, file, last) =
        round-IsFallback cfg sys to_string r s eager_ok final_ok sent h p on named nothing in
      (
        m,
        IsFallback-rows sys (at_choice cfg sys to_string r s).0.resolved r.final_resolve_at
            (trim r.snapshot.app_id) m plain is_fallback,
        file,
        last,
      )
