-- ===== src/Proxy/Loop/Provenance.antt =====
-- The `source` that is published tells the truth about the menu beside it.
use noctalia_appmenu.Prelude.{
  ℕ, ◌==◌, ◌≡◌, refl, ◌≢◌, Bool, true, false, Option, none, some, arith, Text, if◌then◌else◌,
}
use noctalia_appmenu.Menu.Tree.{MenuItem}
use noctalia_appmenu.Config.{Config}
use noctalia_appmenu.Active.Snapshot.{ActiveSnapshot}
use noctalia_appmenu.Desktop.Resolve.{System, ResolveCache}
use noctalia_appmenu.Desktop.Fallback.{fallback_menu}
use noctalia_appmenu.Proxy.Write.{
  MenuSource, atspi, synthetic, desktop_fallback, empty, is_lazy_unreadable, Payload, payload_of,
  Writer,
}
use noctalia_appmenu.Proxy.Write.Laws.{IsSynced, last_of, write_active_json-IsSynced}
use noctalia_appmenu.Proxy.Loop.{
  Bridge, props_of, Round, Walk, walked, walk_failed, on_wake, focus_changed, refresh_kick,
  fallback_choice, eager_choice, eager_write, publish_props, resolve_menu, usable, final_choice,
  final_write, round, after_restart, Wake, after_walk, focus_title,
}

module _ (cfg : Config) (sys : System) where
  -- What each source promises of the menu, for a focused application.
  abbrev pub IsHonest : ActiveSnapshot → MenuSource → Option MenuItem → Type 0
  IsHonest snap empty none = Unit
  IsHonest snap empty (some m) = ⊥
  IsHonest snap atspi none = ⊥
  IsHonest snap atspi (some m) = (snap.focus_pid ≢ 0) × (is_lazy_unreadable m ≡ false)
  IsHonest snap desktop_fallback none = ⊥
  IsHonest snap desktop_fallback (some m) =
      (snap.focus_pid ≢ 0)
      × (cfg.desktop_fallback ≡ true)
      × ((cache : ResolveCache) × (now : ℕ) × ((fallback_menu sys cache now snap.app_id).1
            ≡ some m))
  IsHonest snap synthetic menu = ⊥

  fallback_choice-IsHonest :
      (snap : ActiveSnapshot) (cache : ResolveCache) (now : ℕ) (fb : Option MenuItem)
      → snap.focus_pid ≢ 0
      → cfg.desktop_fallback ≡ true
      → (fallback_menu sys cache now snap.app_id).1 ≡ fb
      → IsHonest snap (fallback_choice fb).1 (fallback_choice fb).0
  fallback_choice-IsHonest snap cache now none p d e = tt
  fallback_choice-IsHonest snap cache now (some m) p d e = (p, d, (cache, now, e))

  module _ (to_string : Payload → Text) where
    ladder :
        Round
        → ResolveCache
        → Bool
        → Bool
        → Option MenuItem
        → ResolveCache × (Option MenuItem × MenuSource)
    ladder r cache unfocused enabled kept =
        let (next, fb) = fallback_menu sys cache r.final_resolve_at r.snapshot.app_id in
        if unfocused then (cache, (none, empty)) else elim kept [
          | some m ↦ (cache, (some m, atspi))
          | none ↦ if enabled then (next, fallback_choice fb) else (cache, (none, empty))
        ]

    usable-is_lazy_unreadable :
        (found : Option MenuItem) (m : MenuItem)
        → usable cfg sys to_string found ≡ some m
        → is_lazy_unreadable m ≡ false
    unfolding usable
    usable-is_lazy_unreadable none m e = absurd (cc)
    usable-is_lazy_unreadable (some a) m e = ground arith

    ladder-IsHonest :
        (r : Round) (cache : ResolveCache) (found : Option MenuItem) (unfocused enabled : Bool)
        (kept : Option MenuItem)
        → (r.snapshot.focus_pid == 0) ≡ unfocused
        → cfg.desktop_fallback ≡ enabled
        → usable cfg sys to_string found ≡ kept
        → IsHonest r.snapshot
            (ladder r cache unfocused enabled kept).1.1
            (ladder r cache unfocused enabled kept).1.0
    unfolding ladder
    ladder-IsHonest r cache found true enabled kept p d u = tt
    ladder-IsHonest r cache found false enabled (some m) p d u =
        (ground arith, usable-is_lazy_unreadable found m u)
    ladder-IsHonest r cache found false false none p d u = tt
    ladder-IsHonest r cache found false true none p d u =
        fallback_choice-IsHonest r.snapshot cache r.final_resolve_at
          (fallback_menu sys cache r.final_resolve_at r.snapshot.app_id).1 (ground arith) d refl

    final_choice-IsHonest :
        (r : Round) (cache : ResolveCache) (found : Option MenuItem)
        → IsHonest r.snapshot
            (final_choice cfg sys to_string r cache found).1.1
            (final_choice cfg sys to_string r cache found).1.0
    unfolding final_choice ladder
    final_choice-IsHonest r cache found =
        ladder-IsHonest r cache found (r.snapshot.focus_pid == 0) cfg.desktop_fallback
          (usable cfg sys to_string found) refl refl refl

    -- A state in which the file and the widget have a payload that tells the truth.
    abbrev pub IsPublished : ActiveSnapshot → Writer → Type 0
    IsPublished snap w =
        (menu : Option MenuItem) × (source : MenuSource) × IsHonest snap source menu
        × (w.file ≡ some (to_string (payload_of snap menu source)))
        × (last_of w.pushed ≡ some (to_string (payload_of snap menu source)))

    on_wake-IsSynced : (wake : Wake) (w : Writer) → IsSynced w → IsSynced (on_wake wake w)
    unfolding on_wake
    on_wake-IsSynced focus_changed w h = h
    on_wake-IsSynced refresh_kick w h = tt

    pub after_walk-writer :
        (r : Round) (s : Bridge) (w : Walk)
        → (after_walk cfg sys to_string r s w).0.writer ≡ s.writer
    unfolding after_walk
    after_walk-writer r s (walked menu took) = refl
    after_walk-writer r s walk_failed = refl

    pub resolve_menu-writer :
        (r : Round) (s : Bridge) → (resolve_menu cfg sys to_string r s).0.writer ≡ s.writer
    unfolding resolve_menu
    resolve_menu-writer r s =
        ground (arith, after_walk-writer r s (r.walk (focus_title cfg sys to_string r.snapshot)))

    after_walk-props :
        (r : Round) (s : Bridge) (w : Walk) → (after_walk cfg sys to_string r s w).0.props ≡ s.props
    unfolding after_walk
    after_walk-props r s (walked menu took) = refl
    after_walk-props r s walk_failed = refl

    resolve_menu-props :
        (r : Round) (s : Bridge) → (resolve_menu cfg sys to_string r s).0.props ≡ s.props
    unfolding resolve_menu
    resolve_menu-props r s =
        ground (arith, after_walk-props r s (r.walk (focus_title cfg sys to_string r.snapshot)))

    -- Whatever fails, after a round the object has the properties of the round's snapshot.
    pub round-props :
        (r : Round) (s : Bridge) → (round cfg sys to_string r s).0.props ≡ props_of r.snapshot
    unfolding round publish_props final_write
    round-props r s = ground (
      arith,
      resolve_menu-props r (publish_props cfg sys to_string r (eager_write cfg sys to_string r s)),
    )

    pub after_restart-IsSynced :
        (restarted : Bool) (s : Bridge)
        → IsSynced s.writer
        → IsSynced (after_restart restarted s).writer
    unfolding after_restart
    after_restart-IsSynced restarted s h = h

    pub eager_write-IsSynced :
        (r : Round) (s : Bridge)
        → r.eager_disk.writes ≡ true
        → IsSynced s.writer
        → IsSynced (eager_write cfg sys to_string r s).writer
    unfolding eager_write
    eager_write-IsSynced r s ok h =
        let choice = eager_choice cfg sys to_string r s in
        let (f, l, synced) =
          write_active_json-IsSynced to_string r.eager_disk r.snapshot choice.1.0 choice.1.1
            (on_wake r.wake s.writer) ok (on_wake-IsSynced r.wake s.writer h) in
        synced

    final_write-IsPublished :
        (r : Round) (s : Bridge) (found : Option MenuItem)
        → r.final_disk.writes ≡ true
        → IsSynced s.writer
        → IsPublished r.snapshot (final_write cfg sys to_string r s found).writer
          × IsSynced (final_write cfg sys to_string r s found).writer
    unfolding final_write
    final_write-IsPublished r s found ok h =
        let choice = final_choice cfg sys to_string r s.resolved found in
        let (f, l, synced) =
          write_active_json-IsSynced to_string r.final_disk r.snapshot choice.1.0 choice.1.1
            s.writer ok h in
        ((choice.1.0, choice.1.1, final_choice-IsHonest r s.resolved found, f, l), synced)

    -- A round in which both writes succeed and the signals are sent ends with the file, and the
    -- last payload pushed to the widget, of the round's snapshot, and their `source` tells the
    -- truth: without a focused process it is `empty` with no menu, `atspi` stands beside a menu
    -- that is not lazily unreadable, `desktop-fallback` beside the menu that the desktop files
    -- give, only where it is enabled, `empty` beside no menu, and `synthetic` is never published.
    pub round-IsPublished :
        (r : Round) (s : Bridge)
        → r.eager_disk.writes ≡ true
        → r.final_disk.writes ≡ true
        → r.signals_sent ≡ true
        → IsSynced s.writer
        → IsPublished r.snapshot (round cfg sys to_string r s).0.writer
          × IsSynced (round cfg sys to_string r s).0.writer
    unfolding round publish_props eager_write eager_choice resolve_menu final_write final_choice
    round-IsPublished r s eager_ok final_ok sent h =
        let published = publish_props cfg sys to_string r (eager_write cfg sys to_string r s) in
        let (next, found) = resolve_menu cfg sys to_string r published in
        rw sent (
          final_write-IsPublished r next found final_ok
            (rw (resolve_menu-writer r published) (eager_write-IsSynced r s eager_ok h)))
