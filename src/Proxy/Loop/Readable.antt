-- ===== src/Proxy/Loop/Readable.antt =====
-- A menu that can be read reaches the widget.
use noctalia_appmenu.Prelude.{◌≡◌, ◌≢◌, true, false, some, arith, Text, Duration}
use noctalia_appmenu.Menu.Tree.{MenuItem}
use noctalia_appmenu.Config.{Config}
use noctalia_appmenu.Desktop.Resolve.{System, ResolveCache}
use noctalia_appmenu.Proxy.Write.{atspi, is_lazy_unreadable, Payload, payload_of}
use noctalia_appmenu.Proxy.Write.Laws.{IsSynced, last_of, write_active_json-IsSynced}
use noctalia_appmenu.Proxy.Loop.{
  Bridge, Round, walked, publish_props, eager_write, after_walk, usable, final_choice, final_write,
  round,
}
use noctalia_appmenu.Proxy.Loop.Provenance.{after_walk-writer, eager_write-IsSynced}
use noctalia_appmenu.Proxy.Loop.Walks.{Walks, round-Walks}

module _ (cfg : Config) (sys : System) (to_string : Payload → Text) where
  final_choice-atspi :
      (r : Round) (cache : ResolveCache) (m : MenuItem)
      → r.snapshot.focus_pid ≢ 0
      → is_lazy_unreadable m ≡ false
      → (final_choice cfg sys to_string r cache (some m)).1 ≡ (some m, atspi)
  unfolding final_choice usable
  final_choice-atspi r cache m p lazy = ground arith

  final_write-atspi :
      (r : Round) (s : Bridge) (m : MenuItem)
      → r.snapshot.focus_pid ≢ 0
      → is_lazy_unreadable m ≡ false
      → r.final_disk.writes ≡ true
      → IsSynced s.writer
      → ((final_write cfg sys to_string r s (some m)).writer.file
          ≡ some (to_string (payload_of r.snapshot (some m) atspi)))
        × (last_of (final_write cfg sys to_string r s (some m)).writer.pushed
            ≡ some (to_string (payload_of r.snapshot (some m) atspi)))
  unfolding final_write
  final_write-atspi r s m p lazy ok h =
      let (f, l, synced) =
        write_active_json-IsSynced to_string r.final_disk r.snapshot (some m) atspi s.writer ok h in
      rw (final_choice-atspi r s.resolved m p lazy) (f, l)

  -- A round that walks the accessibility tree and finds a menu that is not lazily unreadable, while
  -- its writes and signals succeed, ends with that very menu in the file and in the last payload
  -- pushed to the widget, with the round's snapshot and the source `atspi`.
  pub round-atspi :
      (r : Round) (s : Bridge) (m : MenuItem) (took : Duration)
      → r.eager_disk.writes ≡ true
      → r.final_disk.writes ≡ true
      → r.signals_sent ≡ true
      → IsSynced s.writer
      → Walks cfg sys to_string r s (some m) took
      → is_lazy_unreadable m ≡ false
      → ((round cfg sys to_string r s).0.writer.file
          ≡ some (to_string (payload_of r.snapshot (some m) atspi)))
        × (last_of (round cfg sys to_string r s).0.writer.pushed
            ≡ some (to_string (payload_of r.snapshot (some m) atspi)))
  unfolding publish_props
  round-atspi r s m took eager_ok final_ok sent h w lazy =
      let published = publish_props cfg sys to_string r (eager_write cfg sys to_string r s) in
      let next = (after_walk cfg sys to_string r published (walked (some m) took)).0 in
      rw (round-Walks cfg sys to_string r s (some m) took sent w) (
        final_write-atspi r next m w.0 lazy final_ok (
          rw (after_walk-writer cfg sys to_string r published (walked (some m) took))
            (eager_write-IsSynced cfg sys to_string r s eager_ok h)))
