-- ===== src/Daemon/Settled.antt =====
-- When every task has caught up, the file shows the window that niri focused last.
use noctalia_appmenu.Prelude.{
  ◌≤◌, ◌≡◌, refl, sym, ap, ◌∙◌, ◌≢◌, ◌⊎◌, inl, inr, true, false, List, [], ◌∷◌, Option, none, some,
  arith, All, All-append, length, Text,
}
use mathlib.Core.Option
use mathlib.Core.Path.{subst}
use noctalia_appmenu.Focus.{FocusEvent}
use noctalia_appmenu.Niri.Detect.{NiriIpc}
use noctalia_appmenu.Niri.Stream.{on_line}
use noctalia_appmenu.Niri.Stream.Laws.{Applied, at_start, IsGenuine, on_line-IsGenuine}
use noctalia_appmenu.Active.Snapshot.{ActiveSnapshot, empty as no_snapshot, snapshot}
use noctalia_appmenu.Active.Debounce.{
  sleeping, Debounce, after_send, send, changed, sleep_over, Reach as DebounceReach,
  start as debounce_start, next as debounce_next,
}
use noctalia_appmenu.Active.Debounce.Laws.{last, last-concat, Reach-settled, Reach-length-le}
use noctalia_appmenu.Config.{Config}
use noctalia_appmenu.Desktop.Resolve.{System}
use noctalia_appmenu.Proxy.Write.{empty, Payload, Disk}
use noctalia_appmenu.Proxy.Write.Laws.{IsSynced, write_active_json-IsSynced}
use noctalia_appmenu.Proxy.Loop.{Bridge, props_of, after_restart, start}
use noctalia_appmenu.Proxy.Loop.Provenance.{
  IsPublished, round-IsPublished, round-props, after_restart-IsSynced,
}
use noctalia_appmenu.Daemon.{
  Daemon, launched, send_all, after_round, Step, reads, reconnects, wakes, publishes, refreshes,
  rounds, Reach, begin, next,
}

-- The value that was sent last; none before the first.
abbrev pub last_focus : List (Option FocusEvent) → Option FocusEvent
last_focus vs = Option.get_or (last vs) none

module _ (cfg : Config) (sys : System) (to_string : Payload → Text) (ipc : NiriIpc) where
  -- The file and the last push are those of the snapshot, and so are the properties of the D-Bus
  -- object.
  abbrev pub IsShown : ActiveSnapshot → Bridge → Type 0
  IsShown snap b = IsPublished cfg sys to_string snap b.writer × (b.props ≡ props_of snap)

  -- What holds in every reachable state: the debounce task is where its own relation allows it to
  -- be with its sender still there, what was sent is genuine, the active channel has what was
  -- published last, and the proxy task has published what it has seen.
  pub record Inv (d : Daemon ipc) : Type 0 where
    pub moves : DebounceReach d.debounce
    pub is_open : d.debounce.is_closed ≡ false
    pub led_to : Applied ipc ipc.default d.niri
    pub genuine : All (IsGenuine ipc ipc.default) d.debounce.sent
    pub holds :
        (last d.debounce.published ≡ some d.active)
        ⊎ ((d.debounce.published ≡ []) × (d.active ≡ no_snapshot))
    pub synced : IsSynced d.bridge.writer
    pub shown : (d.active_unseen ≡ true) ⊎ IsShown d.active d.bridge

  send_all-moves :
      (s : Debounce) (vs : List (Option FocusEvent))
      → DebounceReach s
      → s.is_closed ≡ false
      → All (IsGenuine ipc ipc.default) s.sent
      → All (IsGenuine ipc ipc.default) vs
      → DebounceReach (send_all cfg sys to_string ipc s vs)
        × ((send_all cfg sys to_string ipc s vs).is_closed ≡ false)
        × All (IsGenuine ipc ipc.default) (send_all cfg sys to_string ipc s vs).sent
        × ((send_all cfg sys to_string ipc s vs).published ≡ s.published)
  send_all-moves s [] r o g h = (r, o, g, refl)
  send_all-moves s (v ∷ vs) r o g (h, hs) =
      send_all-moves (after_send s v) vs (debounce_next r (send v o)) o
        (All-append (IsGenuine ipc ipc.default) s.sent (v ∷ []) g (h, tt)) hs

  pub Step-Inv : {d e : Daemon ipc} → Step cfg sys to_string ipc d e → Inv d → Inv e
  Step-Inv {d} (reads buf) i =
      let (niri, out) = on_line ipc d.niri buf in
      let (a, g) = on_line-IsGenuine ipc ipc.default d.niri buf i.led_to in
      let (r, o, sent, p) = send_all-moves d.debounce out i.moves i.is_open i.genuine g in
      record {
        moves = r;
        is_open = o;
        led_to = a;
        genuine = sent;
        holds =
            subst (λ xs. (last xs ≡ some d.active) ⊎ ((xs ≡ []) × (d.active ≡ no_snapshot))) (sym p)
              i.holds;
        synced = i.synced;
        shown = i.shown;
      }
  Step-Inv {d} reconnects i = record {
    moves = i.moves;
    is_open = i.is_open;
    led_to = at_start;
    genuine = i.genuine;
    holds = i.holds;
    synced = i.synced;
    shown = i.shown;
  }
  Step-Inv {d} (wakes p u) i = record {
    moves = debounce_next i.moves (changed p u);
    is_open = i.is_open;
    led_to = i.led_to;
    genuine = i.genuine;
    holds = i.holds;
    synced = i.synced;
    shown = i.shown;
  }
  Step-Inv {d} (publishes p) i = record {
    moves = debounce_next i.moves (sleep_over p);
    is_open = i.is_open;
    led_to = i.led_to;
    genuine = i.genuine;
    holds = inl (last-concat d.debounce.published (snapshot d.debounce.latest));
    synced = i.synced;
    shown = inl refl;
  }
  Step-Inv {d} refreshes i = record {
    moves = i.moves;
    is_open = i.is_open;
    led_to = i.led_to;
    genuine = i.genuine;
    holds = i.holds;
    synced = i.synced;
    shown = i.shown;
  }
  Step-Inv {d} (rounds r w same eager_ok final_ok sent) i =
      let before = after_restart r.restarted d.bridge in
      let (shown, synced) =
        round-IsPublished cfg sys to_string r before eager_ok final_ok sent
          (after_restart-IsSynced cfg sys to_string r.restarted d.bridge i.synced) in
      record {
        moves = i.moves;
        is_open = i.is_open;
        led_to = i.led_to;
        genuine = i.genuine;
        holds = i.holds;
        synced = synced;
        shown = inr (
            subst (λ a. IsShown a (after_round cfg sys to_string ipc d r).bridge) same
              (shown, round-props cfg sys to_string r before));
      }

  launched-Inv :
      (disk : Disk) (b : Bridge) → disk.writes ≡ true → Inv (launched cfg sys to_string ipc disk b)
  unfolding start
  launched-Inv disk b ok =
      let (f, l, synced) =
        write_active_json-IsSynced to_string disk no_snapshot none empty
          (record b.writer { last_body = none }) ok tt in
      record {
        moves = debounce_start;
        is_open = refl;
        led_to = at_start;
        genuine = tt;
        holds = inr (refl, refl);
        synced = synced;
        shown = inr ((none, empty, tt, f, l), refl);
      }

  pub Reach-Inv :
      {disk : Disk} {b : Bridge} {d : Daemon ipc}
      → disk.writes ≡ true
      → Reach cfg sys to_string ipc disk b d
      → Inv d
  Reach-Inv {disk} {b} ok begin = launched-Inv disk b ok
  Reach-Inv ok (next r st) = Step-Inv st (Reach-Inv ok r)

  some-ne-none : {a : ActiveSnapshot} → ¬ (Path (Option ActiveSnapshot) (some a) none)
  some-ne-none e = absurd (cc)

  some-inj : {a b : ActiveSnapshot} → Path (Option ActiveSnapshot) (some a) (some b) → a ≡ b
  some-inj e = cc

  nothing_published : (ps : List ActiveSnapshot) → length ps ≤ 0 → ps ≡ []
  nothing_published [] h = refl
  nothing_published (p ∷ ps) h = absurd (omega (arith, h))

  -- what the active channel holds once the debounce task has nothing left to do
  settled-active :
      (d : Daemon ipc)
      → Inv d
      → d.debounce.unseen ≡ false
      → d.debounce.phase ≢ sleeping
      → d.active ≡ snapshot (last_focus d.debounce.sent)
  unfolding last snapshot
  settled-active d i seen idle = elim (Reach-settled d.debounce i.moves seen idle) [
    | inl none_sent ↦
        let quiet : length d.debounce.published ≤ 0 =
          subst (λ xs. length d.debounce.published ≤ length xs) none_sent
            (Reach-length-le d.debounce i.moves) in
        let nothing = nothing_published d.debounce.published quiet in
        elim i.holds [
          | inl h ↦ absurd (some-ne-none (sym h ∙ ap last nothing))
          | inr (_, a) ↦ a ∙ ap (λ xs. snapshot (last_focus xs)) (sym none_sent)
        ]
    | inr (v, sent, published) ↦ elim i.holds [
      | inl h ↦ some-inj (sym h ∙ published) ∙ ap (λ o. snapshot (Option.get_or o none)) (sym sent)
      | inr (nothing, _) ↦ absurd (some-ne-none (sym published ∙ ap last nothing))
    ]
  ]

  last-All :
      (P : Option FocusEvent → Type 0) (vs : List (Option FocusEvent))
      → P none
      → All P vs
      → P (last_focus vs)
  unfolding last
  last-All P [] n h = n
  last-All P (v ∷ []) n (h, _) = h
  last-All P (v ∷ w ∷ vs) n (_, hs) = last-All P (w ∷ vs) n hs

  -- However the tasks are scheduled, and whatever niri's stream and sessions, the walks and the
  -- clicks do: once the debounce task has seen the last value and is not in its sleep, and the
  -- proxy task has seen the debounce's last snapshot, the file and the last payload pushed to the
  -- widget are those of the focus that was sent last, with a `source` that tells the truth, and so
  -- are the properties of the D-Bus object; and that focus is genuine, a window of a state that
  -- niri's events lead to, or none. (All writes and signals of the proxy task succeed.)
  pub Reach-IsPublished :
      (disk : Disk) (b : Bridge) (d : Daemon ipc)
      → disk.writes ≡ true
      → Reach cfg sys to_string ipc disk b d
      → d.debounce.unseen ≡ false
      → d.debounce.phase ≢ sleeping
      → d.active_unseen ≡ false
      → IsShown (snapshot (last_focus d.debounce.sent)) d.bridge
        × IsGenuine ipc ipc.default (last_focus d.debounce.sent)
  Reach-IsPublished disk b d ok r seen idle caught_up =
      let i = Reach-Inv ok r in
      (
        elim i.shown [
          | inl unseen ↦ absurd (ground arith)
          | inr shown ↦ subst (λ a. IsShown a d.bridge) (settled-active d i seen idle) shown
        ],
        last-All (IsGenuine ipc ipc.default) d.debounce.sent tt i.genuine,
      )
