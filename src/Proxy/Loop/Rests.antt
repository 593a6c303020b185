-- ===== src/Proxy/Loop/Rests.antt =====
-- An application that was walked in vain is left alone.
use noctalia_appmenu.Prelude.{
  ◌+◌, ◌<◌, ◌==◌, ◌≡◌, refl, sym, ap, ◌∙◌, ◌⊎◌, inl, inr, true, false, Bool, List, [], ◌∷◌, map,
  Option, none, some, arith, All, if◌then◌else◌, Bool-cases, Option-cases, Text, text_eq, Instant,
  Duration,
}
use noctalia_appmenu.Prelude.Str.Laws.{text_eq_iff}
use noctalia_appmenu.Menu.Tree.{MenuItem}
use noctalia_appmenu.Config.{Config}
use noctalia_appmenu.Desktop.Resolve.{System}
use noctalia_appmenu.Atspi.Skip.{resolved_once, ttl_for, classify_expensive, should_skip}
use noctalia_appmenu.Atspi.Cache.{get}
use noctalia_appmenu.Proxy.Write.{Payload}
use noctalia_appmenu.Proxy.Loop.{
  Bridge, Round, Walk, walked, walk_failed, eager_write, publish_props, resolve_menu, after_walk,
  final_write, round, after_restart, run_loop, focus_title,
}
use noctalia_appmenu.Proxy.Loop.Walks.{Walks, round-Walks, round-resolve_menu}
use noctalia_appmenu.Proxy.Loop.Resting.{
  RestsUntil, record_negative-RestsUntil, forget-RestsUntil, after_restart-RestsUntil,
  record_negative-RestsUntil_self,
}

module _ (cfg : Config) (sys : System) (to_string : Payload → Text) where
  -- The round, with a walk that fails if its window is one of the application.
  abbrev pub blind : Text → Round → Round
  blind a r = if text_eq a r.snapshot.app_id then record r { walk = λ _. walk_failed } else r

  blind-restarted : (a : Text) (r : Round) → (blind a r).restarted ≡ r.restarted
  blind-restarted a r = elim (Bool-cases (text_eq a r.snapshot.app_id)) [
    | inl h ↦ rw h refl
    | inr h ↦ rw h refl
  ]

  after_walk-RestsUntil :
      (stays : Bool) (end : Instant) (a : Text) (r : Round) (s : Bridge) (w : Walk)
      → text_eq r.snapshot.app_id a ≡ false
      → RestsUntil stays end a s.learned
      → RestsUntil stays end a (after_walk cfg sys to_string r s w).0.learned
  unfolding after_walk
  after_walk-RestsUntil stays end a r s walk_failed other h = h
  after_walk-RestsUntil stays end a r s (walked (some m) took) other h =
      forget-RestsUntil stays end a r.snapshot.app_id s.learned other h
  after_walk-RestsUntil stays end a r s (walked none took) other h =
      record_negative-RestsUntil stays end r.learned_at a r.snapshot.app_id took s.learned other h

  resolve_menu-skipped :
      (r : Round) (s : Bridge)
      → should_skip s.learned r.skip_at r.snapshot.app_id ≡ true
      → resolve_menu cfg sys to_string r s ≡ (s, none)
  unfolding resolve_menu
  resolve_menu-skipped r s h = ground (arith, h)

  -- A round resolves the menu without a walk, and then remembers nothing, or with one.
  pub resolve_menu-cases :
      (r : Round) (s : Bridge)
      → ((found : Option MenuItem) × (resolve_menu cfg sys to_string r s ≡ (s, found)))
        ⊎ (resolve_menu cfg sys to_string r s
            ≡ after_walk cfg sys to_string r s (r.walk (focus_title cfg sys to_string r.snapshot)))
  unfolding resolve_menu
  resolve_menu-cases r s = elim (Bool-cases (r.snapshot.focus_pid == 0)) [
    | inl p ↦ inl (none, ground arith)
    | inr p ↦ elim (Bool-cases (should_skip s.learned r.skip_at r.snapshot.app_id)) [
      | inl k ↦ inl (none, ground arith)
      | inr k ↦
          elim (Option-cases (
            get s.menus r.cache_at r.snapshot.app_id r.snapshot.focus_pid r.snapshot.focus_winid)) [
              | inl e ↦ inr (ground arith)
              | inr (cached, e) ↦ inl (cached, ground arith)
            ]
    ]
  ]

  resolve_menu-RestsUntil :
      (stays : Bool) (end : Instant) (a : Text) (r : Round) (s : Bridge)
      → r.skip_at < end
      → RestsUntil stays end a s.learned
      → RestsUntil stays end a (resolve_menu cfg sys to_string r s).0.learned
  resolve_menu-RestsUntil stays end a r s soon h = elim (Bool-cases (text_eq r.snapshot.app_id a)) [
    | inl e ↦
        let same : r.snapshot.app_id ≡ a = (text_eq_iff r.snapshot.app_id a).0 e in
        rw (resolve_menu-skipped r s (rw same (h.1 r.skip_at soon))) h
    | inr e ↦ elim (resolve_menu-cases r s) [
      | inl (found, same) ↦ rw same h
      | inr same ↦ rw same (
          after_walk-RestsUntil stays end a r s (r.walk (focus_title cfg sys to_string r.snapshot))
            e h)
    ]
  ]

  round-learned :
      (r : Round) (s : Bridge)
      → ((round cfg sys to_string r s).0.learned ≡ s.learned)
        ⊎ ((round cfg sys to_string r s).0.learned
            ≡ (resolve_menu cfg sys to_string r
                (publish_props cfg sys to_string r (eager_write cfg sys to_string r s))).0.learned)
  unfolding round publish_props eager_write final_write
  round-learned r s = elim (Bool-cases r.signals_sent) [
    | inl sent ↦ inr (ground arith)
    | inr lost ↦ inl (ground arith)
  ]

  round-RestsUntil :
      (stays : Bool) (end : Instant) (a : Text) (r : Round) (s : Bridge)
      → r.skip_at < end
      → RestsUntil stays end a s.learned
      → RestsUntil stays end a (round cfg sys to_string r s).0.learned
  unfolding publish_props eager_write
  round-RestsUntil stays end a r s soon h = elim (round-learned r s) [
    | inl same ↦ rw same h
    | inr same ↦ rw same (
        resolve_menu-RestsUntil stays end a r
          (publish_props cfg sys to_string r (eager_write cfg sys to_string r s)) soon h)
  ]

  round-blind :
      (stays : Bool) (end : Instant) (a : Text) (r : Round) (s : Bridge)
      → r.skip_at < end
      → RestsUntil stays end a s.learned
      → round cfg sys to_string r s ≡ round cfg sys to_string (blind a r) s
  unfolding publish_props eager_write
  round-blind stays end a r s soon h = elim (Bool-cases (text_eq a r.snapshot.app_id)) [
    | inl e ↦
        let same : a ≡ r.snapshot.app_id = (text_eq_iff a r.snapshot.app_id).0 e in
        let skips : should_skip s.learned r.skip_at r.snapshot.app_id ≡ true =
          rw (← same) (h.1 r.skip_at soon) in
        let published = publish_props cfg sys to_string r (eager_write cfg sys to_string r s) in
        rw e (
          round-resolve_menu cfg sys to_string r s (λ _. walk_failed)
            (resolve_menu-skipped r published skips
              ∙ sym (resolve_menu-skipped (record r { walk = λ _. walk_failed }) published skips)))
    | inr e ↦ rw e refl
  ]

  -- The round comes before the end, and finds the bus as it was where that is needed.
  abbrev IsSoon : Bool → Instant → Round → Type 0
  IsSoon stays end r = (r.skip_at < end) × ((stays ≡ false) ⊎ (r.restarted ≡ false))

  run_loop-blind :
      (stays : Bool) (end : Instant) (a : Text) (rs : List Round) (s : Bridge)
      → All (IsSoon stays end) rs
      → RestsUntil stays end a s.learned
      → run_loop cfg sys to_string s rs ≡ run_loop cfg sys to_string s (map (blind a) rs)
  unfolding run_loop
  run_loop-blind stays end a [] s soon h = refl
  run_loop-blind stays end a (r ∷ rs) s ((soon, bus), later) h =
      let before = after_restart r.restarted s in
      let rests = after_restart-RestsUntil stays end a r.restarted s bus h in
      let goes_on = (round cfg sys to_string r before).1 in
      ap (λ rest. (round cfg sys to_string r before).0 ∷ (if goes_on then rest else []))
        (run_loop-blind stays end a rs (round cfg sys to_string r before).0 later
          (round-RestsUntil stays end a r before soon rests))
      ∙ ap (λ x. x.0 ∷ (if x.1 then run_loop cfg sys to_string x.0 (map (blind a) rs) else []))
          (round-blind stays end a r before soon rests)
      ∙ ap
          (λ b.
            let x = round cfg sys to_string (blind a r) (after_restart b s) in
            x.0 ∷ (if x.1 then run_loop cfg sys to_string x.0 (map (blind a) rs) else []))
          (sym (blind-restarted a r))

  round-rests :
      (stays : Bool) (r : Round) (s : Bridge) (took : Duration)
      → r.signals_sent ≡ true
      → Walks cfg sys to_string r s none took
      → s.learned.skip.poisoned ≡ false
      → (stays ≡ true) ⊎ (classify_expensive took ≡ false)
      → RestsUntil stays
          (r.learned_at
            + ttl_for (classify_expensive took) (resolved_once s.learned r.snapshot.app_id))
          r.snapshot.app_id
          (round cfg sys to_string r s).0.learned
  unfolding publish_props eager_write after_walk final_write
  round-rests stays r s took sent walks p c =
      rw (round-Walks cfg sys to_string r s none took sent walks)
        (record_negative-RestsUntil_self stays r.learned_at r.snapshot.app_id took s.learned p c)

  All-IsSoon :
      (stays : Bool) (end : Instant) (rs : List Round)
      → ((r : Round) → (stays ≡ false) ⊎ (r.restarted ≡ false))
      → All (λ r. r.skip_at < end) rs
      → All (IsSoon stays end) rs
  All-IsSoon stays end [] k h = tt
  All-IsSoon stays end (r ∷ rs) k (h, hs) = ((h, k r), All-IsSoon stays end rs k hs)

  All-steady :
      (end : Instant) (rs : List Round)
      → All (λ r. r.restarted ≡ false) rs
      → All (λ r. r.skip_at < end) rs
      → All (IsSoon true end) rs
  All-steady end [] k h = tt
  All-steady end (r ∷ rs) (k, ks) (h, hs) = ((h, inr k), All-steady end rs ks hs)

  -- After a round that walks an application and finds no menubar, the loop does not look at the
  -- tree for that application for the time of its class, 300 s for a cheap walk, and for an
  -- expensive one 30 s or half an hour, whatever other rounds come in between: whatever its walks
  -- would return, the loop goes through the same states as if they all failed. After an expensive
  -- walk this holds while the a11y bus does not restart between the rounds; a cheap one's verdict
  -- outlasts a restart. (The signals are sent, and the lock is not poisoned.)
  pub run_loop-rests :
      (r : Round) (s : Bridge) (took : Duration) (rs : List Round)
      → r.signals_sent ≡ true
      → Walks cfg sys to_string r s none took
      → s.learned.skip.poisoned ≡ false
      → All
          (λ q.
            q.skip_at
            < r.learned_at
              + ttl_for (classify_expensive took) (resolved_once s.learned r.snapshot.app_id))
          rs
      → (classify_expensive took ≡ false) ⊎ All (λ q. q.restarted ≡ false) rs
      → run_loop cfg sys to_string (round cfg sys to_string r s).0 rs
        ≡ run_loop cfg sys to_string
            (round cfg sys to_string r s).0
            (map (blind r.snapshot.app_id) rs)
  run_loop-rests r s took rs sent walks p soon (inl cheap) =
      run_loop-blind false _ r.snapshot.app_id rs (round cfg sys to_string r s).0
        (All-IsSoon false _ rs (λ q. inl refl) soon)
        (round-rests false r s took sent walks p (inr cheap))
  run_loop-rests r s took rs sent walks p soon (inr steady) =
      run_loop-blind true _ r.snapshot.app_id rs (round cfg sys to_string r s).0
        (All-steady _ rs steady soon) (round-rests true r s took sent walks p (inl refl))
