-- ===== src/Proxy/Loop/Spec.antt =====
-- The loop as the widget sees it: one payload for each round, with no eager write, no deduplication
-- and no file. The loop refines it.
use noctalia_appmenu.Prelude.{
  ◌≡◌, refl, sym, ◌∙◌, ap, Bool, true, List, [], ◌∷◌, map, Option, none, some, arith, All,
  if◌then◌else◌, Text,
}
use noctalia_appmenu.Menu.Tree.{MenuItem}
use noctalia_appmenu.Config.{Config}
use noctalia_appmenu.Desktop.Resolve.{System}
use noctalia_appmenu.Active.Snapshot.{empty as no_snapshot}
use noctalia_appmenu.Proxy.Write.{empty, Payload, payload_of, Writer, Disk}
use noctalia_appmenu.Proxy.Write.Laws.{
  IsSynced, write_active_json-IsSynced, write_active_json-fresh,
}
use noctalia_appmenu.Proxy.Loop.{
  ActiveProxyState, Bridge, Round, Walk, walked, walk_failed, eager_choice, eager_write,
  publish_props, after_walk, resolve_menu, focus_title, final_choice, final_write, round,
  after_restart, run_loop, start,
}
use noctalia_appmenu.Proxy.Loop.Provenance.{eager_write-IsSynced, resolve_menu-writer}

abbrev no_writer : Writer
no_writer = record { last_body = none; file = none; pushed = [] }

abbrev no_props : ActiveProxyState
no_props = record { bus_name = []; object_path = []; app_id = []; title = [] }

-- The state without the file, the widget and the properties: what the rounds remember.
abbrev pub memory : Bridge → Bridge
memory s = record s { writer = no_writer; props = no_props }

-- A round whose writes and signals succeed.
abbrev pub Succeeds : Round → Type 0
Succeeds r = (r.eager_disk.writes ≡ true) × (r.final_disk.writes ≡ true) × (r.signals_sent ≡ true)

module _ (cfg : Config) (sys : System) (to_string : Payload → Text) where
  -- One round: what it remembers, and the one payload that it is about.
  unfoldable pub spec_round : Round → Bridge → Bridge × Payload
  spec_round r m =
      let eager = record m { resolved = (eager_choice cfg sys to_string r m).0 } in
      let (next, found) = resolve_menu cfg sys to_string r eager in
      let (cache, (menu, source)) = final_choice cfg sys to_string r next.resolved found in
      (record next { resolved = cache }, payload_of r.snapshot menu source)

  unfoldable pub spec_run : Bridge → List Round → List Payload
  spec_run m [] = []
  spec_run m (r ∷ rs) =
      let (next, payload) = spec_round r (after_restart r.restarted m) in payload ∷ spec_run next rs

  after_walk-memory :
      (r : Round) (s : Bridge) (w : Walk)
      → after_walk cfg sys to_string r (memory s) w
        ≡ (memory (after_walk cfg sys to_string r s w).0, (after_walk cfg sys to_string r s w).1)
  unfolding after_walk
  after_walk-memory r s (walked menu took) = refl
  after_walk-memory r s walk_failed = refl

  resolve_menu-memory :
      (r : Round) (s : Bridge)
      → resolve_menu cfg sys to_string r (memory s)
        ≡ (memory (resolve_menu cfg sys to_string r s).0, (resolve_menu cfg sys to_string r s).1)
  unfolding resolve_menu
  resolve_menu-memory r s =
      ground (arith, after_walk-memory r s (r.walk (focus_title cfg sys to_string r.snapshot)))

  unfoldable pub spec_finish : Round → Bridge × Option MenuItem → Bridge × Payload
  spec_finish r x =
      let (cache, (menu, source)) = final_choice cfg sys to_string r x.0.resolved x.1 in
      (record x.0 { resolved = cache }, payload_of r.snapshot menu source)

  abbrev pub eager_part : Round → Bridge → Bridge
  eager_part r s = publish_props cfg sys to_string r (eager_write cfg sys to_string r s)

  pub spec_round-memory :
      (r : Round) (s : Bridge)
      → spec_round r (memory s)
        ≡ spec_finish r (
          memory (resolve_menu cfg sys to_string r (eager_part r s)).0,
          (resolve_menu cfg sys to_string r (eager_part r s)).1,
        )
  unfolding spec_round spec_finish publish_props eager_write eager_choice
  spec_round-memory r s = ap (spec_finish r) (resolve_menu-memory r (eager_part r s))

  taken : (b : Bool) (x y : Bridge × Bool) → b ≡ true → (if b then x else y) ≡ x
  taken b x y h = ground arith

  pub round-final_write :
      (r : Round) (s : Bridge)
      → r.signals_sent ≡ true
      → round cfg sys to_string r s ≡ (
        final_write cfg sys to_string r
            (resolve_menu cfg sys to_string r (eager_part r s)).0
            (resolve_menu cfg sys to_string r (eager_part r s)).1,
        true,
      )
  unfolding round
  round-final_write r s sent = taken r.signals_sent _ _ sent

  pub round-memory :
      (r : Round) (s : Bridge)
      → r.signals_sent ≡ true
      → memory (round cfg sys to_string r s).0 ≡ (spec_round r (memory s)).0
  unfolding final_write spec_finish
  round-memory r s sent =
      ap (λ x. memory x.0) (round-final_write r s sent)
      ∙ sym (ap (λ x. x.0) (spec_round-memory r s))

  -- What one round leaves behind is what the abstract round remembers, and its payload is in the
  -- file.
  abbrev Refines : Bridge × Payload → Bridge → Type 0
  Refines spec s =
      (memory s ≡ spec.0) × (s.writer.file ≡ some (to_string spec.1)) × IsSynced s.writer

  final_write-Refines :
      (r : Round) (s : Bridge) (found : Option MenuItem)
      → r.final_disk.writes ≡ true
      → IsSynced s.writer
      → Refines (spec_finish r (memory s, found)) (final_write cfg sys to_string r s found)
  unfolding final_write spec_finish
  final_write-Refines r s found ok h =
      let choice = final_choice cfg sys to_string r s.resolved found in
      let (f, l, synced) =
        write_active_json-IsSynced to_string r.final_disk r.snapshot choice.1.0 choice.1.1 s.writer
          ok h in
      (refl, f, synced)

  round-Refines :
      (r : Round) (s : Bridge)
      → Succeeds r
      → IsSynced s.writer
      → Refines (spec_round r (memory s)) (round cfg sys to_string r s).0
  unfolding publish_props
  round-Refines r s (eager_ok, final_ok, sent) h =
      let published = eager_part r s in
      let (next, found) = resolve_menu cfg sys to_string r published in
      rw (spec_round-memory r s, round-final_write r s sent)
        (final_write-Refines r next found final_ok (
          rw (resolve_menu-writer cfg sys to_string r published)
            (eager_write-IsSynced cfg sys to_string r s eager_ok h)))

  run_loop-spec_run :
      (rs : List Round) (s : Bridge)
      → All Succeeds rs
      → IsSynced s.writer
      → map (λ t. t.writer.file) (run_loop cfg sys to_string s rs)
        ≡ map (λ p. some (to_string p)) (spec_run (memory s) rs)
  unfolding spec_run run_loop after_restart
  run_loop-spec_run [] s ok h = refl
  run_loop-spec_run (r ∷ rs) s (ok, oks) h =
      let start_of = after_restart r.restarted s in
      let next = (round cfg sys to_string r start_of).0 in
      let (m, f, synced) = round-Refines r start_of ok h in
      let goes_on = ap (λ z. z.1) (round-final_write r start_of ok.2) in
      rw (f, ← m, goes_on)
        (ap (◌∷◌ (some (to_string (spec_round r (memory start_of)).1)))
          (run_loop-spec_run rs next oks synced))

  -- The loop refines its specification, from its start on: while its writes and signals succeed,
  -- what stands in the file after each round is the text of the one payload that the abstract round
  -- is about. The eager write, the deduplication and the forced refresh cannot be told from what a
  -- round leaves there.
  pub run_loop-start :
      (disk : Disk) (s : Bridge) (rs : List Round)
      → All Succeeds rs
      → map (λ t. t.writer.file) (run_loop cfg sys to_string (start cfg sys to_string disk s) rs)
        ≡ map (λ p. some (to_string p)) (spec_run (memory s) rs)
  unfolding start
  run_loop-start disk s rs ok =
      run_loop-spec_run rs (start cfg sys to_string disk s) ok (
        write_active_json-fresh to_string disk no_snapshot none empty s.writer.file s.writer.pushed)
