-- ===== src/Proxy/Loop/Cached.antt =====
-- A window that was walked is not walked again while the menu cache of bridge/src/atspi.rs answers.
use noctalia_appmenu.Prelude.{
  ℕ, ◌≤◌, ◌+◌, ◌&&◌, ◌==◌, ◌≡◌, refl, sym, ap, ◌∙◌, ◌⊎◌, inl, inr, Bool, true, false, List, [], ◌∷◌,
  map, Option, some, arith, All, if◌then◌else◌, Bool-cases, Text, text_eq, Instant, Duration,
  from_secs,
}
use noctalia_appmenu.Prelude.Str.Laws.{text_eq_iff}
use noctalia_appmenu.Menu.Tree.{MenuItem}
use noctalia_appmenu.Config.{Config}
use noctalia_appmenu.Desktop.Resolve.{System}
use noctalia_appmenu.Atspi.Cache.{MenuCache, get, put}
use noctalia_appmenu.Atspi.Cache.Laws.{get-put, get-put_same}
use noctalia_appmenu.Proxy.Write.{Payload}
use noctalia_appmenu.Proxy.Loop.{
  Bridge, Round, Walk, walked, walk_failed, eager_write, publish_props, resolve_menu, after_walk,
  final_write, round, after_restart, run_loop, focus_title,
}
use noctalia_appmenu.Proxy.Loop.Walks.{Walks, round-cached, round-stored}
use noctalia_appmenu.Proxy.Loop.Rests.{resolve_menu-cases}

-- The cache answers for the window until the instant, with this very walk.
abbrev pub Answers : Instant → Text → ℕ → ℕ → Option MenuItem → MenuCache → Type 0
Answers end app_id pid winid menu c =
    (c.poisoned ≡ false) × ((now : Instant) → now ≤ end → get c now app_id pid winid ≡ some menu)

-- The round is for the window.
abbrev is_for : Text → ℕ → ℕ → Round → Bool
is_for a p w r =
    text_eq r.snapshot.app_id a && (r.snapshot.focus_pid == p && r.snapshot.focus_winid == w)

put-unpoisoned :
    (c : MenuCache) (t : Instant) (b : Text) (q v : ℕ) (found : Option MenuItem)
    → c.poisoned ≡ false
    → (put c t b q v found).poisoned ≡ false
unfolding put
put-unpoisoned c t b q v found p = ground (arith, p)

-- A walk of another window leaves the answer as it is.
put-Answers :
    (end t : Instant) (a b : Text) (p q w v : ℕ) (menu found : Option MenuItem) (c : MenuCache)
    → (text_eq b a && (q == p && v == w)) ≡ false
    → Answers end a p w menu c
    → Answers end a p w menu (put c t b q v found)
put-Answers end t a b p q w v menu found c other (unpoisoned, answers) = (
  put-unpoisoned c t b q v found unpoisoned,
  λ now soon. get-put c t now b a q p v w found unpoisoned ∙ (rw other (answers now soon)),
)

is_for-window :
    (a : Text) (p w : ℕ) (r : Round)
    → is_for a p w r ≡ true
    → (r.snapshot.app_id ≡ a) × (r.snapshot.focus_pid ≡ p) × (r.snapshot.focus_winid ≡ w)
is_for-window a p w r h =
    ((text_eq_iff r.snapshot.app_id a).0 (ground arith), ground arith, ground arith)

module _ (cfg : Config) (sys : System) (to_string : Payload → Text) where
  -- The round, with a walk that fails if it is for the window.
  abbrev pub unlooking : Text → ℕ → ℕ → Round → Round
  unlooking a p w r = if is_for a p w r then record r { walk = λ _. walk_failed } else r

  unlooking-restarted :
      (a : Text) (p w : ℕ) (r : Round) → (unlooking a p w r).restarted ≡ r.restarted
  unlooking-restarted a p w r = elim (Bool-cases (is_for a p w r)) [
    | inl h ↦ rw h refl
    | inr h ↦ rw h refl
  ]

  resolve_menu-answered :
      (r : Round) (s : Bridge) (cached : Option MenuItem)
      → get s.menus r.cache_at r.snapshot.app_id r.snapshot.focus_pid r.snapshot.focus_winid
        ≡ some cached
      → (resolve_menu cfg sys to_string r s).0.menus ≡ s.menus
  unfolding resolve_menu
  resolve_menu-answered r s cached e = ground (arith, e)

  module _ (end : Instant) (a : Text) (p w : ℕ) (menu : Option MenuItem) where
    after_walk-Answers :
        (r : Round) (s : Bridge) (found : Walk)
        → is_for a p w r ≡ false
        → Answers end a p w menu s.menus
        → Answers end a p w menu (after_walk cfg sys to_string r s found).0.menus
    unfolding after_walk
    after_walk-Answers r s walk_failed other h = h
    after_walk-Answers r s (walked m took) other h =
        put-Answers end r.learned_at a r.snapshot.app_id p r.snapshot.focus_pid w
          r.snapshot.focus_winid menu m s.menus other h

    Answers-round :
        (r : Round) (s : Bridge)
        → is_for a p w r ≡ true
        → r.cache_at ≤ end
        → Answers end a p w menu s.menus
        → get s.menus r.cache_at r.snapshot.app_id r.snapshot.focus_pid r.snapshot.focus_winid
          ≡ some menu
    Answers-round r s e soon (_, answers) =
        let (same, pid, winid) = is_for-window a p w r e in
        rw (same, pid, winid) (answers r.cache_at soon)

    resolve_menu-Answers :
        (r : Round) (s : Bridge)
        → r.cache_at ≤ end
        → Answers end a p w menu s.menus
        → Answers end a p w menu (resolve_menu cfg sys to_string r s).0.menus
    resolve_menu-Answers r s soon h = elim (Bool-cases (is_for a p w r)) [
      | inl e ↦ rw (resolve_menu-answered r s menu (Answers-round r s e soon h)) h
      | inr e ↦ elim (resolve_menu-cases cfg sys to_string r s) [
        | inl (found, same) ↦ rw same h
        | inr same ↦
            rw same (after_walk-Answers r s (r.walk (focus_title cfg sys to_string r.snapshot)) e h)
      ]
    ]

    round-menus :
        (r : Round) (s : Bridge)
        → ((round cfg sys to_string r s).0.menus ≡ s.menus)
          ⊎ ((round cfg sys to_string r s).0.menus
              ≡ (resolve_menu cfg sys to_string r
                  (publish_props cfg sys to_string r (eager_write cfg sys to_string r s))).0.menus)
    unfolding round publish_props eager_write final_write
    round-menus r s = elim (Bool-cases r.signals_sent) [
      | inl sent ↦ inr (ground arith)
      | inr lost ↦ inl (ground arith)
    ]

    round-Answers :
        (r : Round) (s : Bridge)
        → r.cache_at ≤ end
        → Answers end a p w menu s.menus
        → Answers end a p w menu (round cfg sys to_string r s).0.menus
    unfolding publish_props eager_write
    round-Answers r s soon h = elim (round-menus r s) [
      | inl same ↦ rw same h
      | inr same ↦ rw same (
          resolve_menu-Answers r
            (publish_props cfg sys to_string r (eager_write cfg sys to_string r s)) soon h)
    ]

    round-unlooking :
        (r : Round) (s : Bridge)
        → r.cache_at ≤ end
        → Answers end a p w menu s.menus
        → round cfg sys to_string r s ≡ round cfg sys to_string (unlooking a p w r) s
    round-unlooking r s soon h = elim (Bool-cases (is_for a p w r)) [
      | inl e ↦
          rw e (
            round-cached cfg sys to_string r s menu (λ _. walk_failed) (Answers-round r s e soon h))
      | inr e ↦ rw e refl
    ]

    run_loop-unlooking :
        (rs : List Round) (s : Bridge)
        → All (λ r. r.cache_at ≤ end) rs
        → Answers end a p w menu s.menus
        → run_loop cfg sys to_string s rs ≡ run_loop cfg sys to_string s (map (unlooking a p w) rs)
    unfolding run_loop after_restart
    run_loop-unlooking [] s soon h = refl
    run_loop-unlooking (r ∷ rs) s (soon, later) h =
        let before = after_restart r.restarted s in
        let blind = map (unlooking a p w) rs in
        let goes_on = (round cfg sys to_string r before).1 in
        ap (λ rest. (round cfg sys to_string r before).0 ∷ (if goes_on then rest else []))
          (run_loop-unlooking rs (round cfg sys to_string r before).0 later
            (round-Answers r before soon h))
        ∙ ap (λ x. x.0 ∷ (if x.1 then run_loop cfg sys to_string x.0 blind else []))
            (round-unlooking r before soon h)
        ∙ ap
            (λ b.
              let x = round cfg sys to_string (unlooking a p w r) (after_restart b s) in
              x.0 ∷ (if x.1 then run_loop cfg sys to_string x.0 blind else []))
            (sym (unlooking-restarted a p w r))

  -- A round that walks the accessibility tree stores what it finds: whatever rounds follow, of this
  -- window or of others, woken by a focus or by `RefreshActive`, during the next 30 s no round for
  -- the same application, process and window looks at the tree again. Whatever their walks would
  -- return, the loop goes through the same states as if they all failed. (The walking round's
  -- signals are sent, and the cache's lock is not poisoned.)
  pub run_loop-cached :
      (r : Round) (s : Bridge) (menu : Option MenuItem) (took : Duration) (rs : List Round)
      → r.signals_sent ≡ true
      → Walks cfg sys to_string r s menu took
      → s.menus.poisoned ≡ false
      → All (λ q. q.cache_at ≤ r.learned_at + from_secs 30) rs
      → run_loop cfg sys to_string (round cfg sys to_string r s).0 rs
        ≡ run_loop cfg sys to_string
            (round cfg sys to_string r s).0
            (map (unlooking r.snapshot.app_id r.snapshot.focus_pid r.snapshot.focus_winid) rs)
  run_loop-cached r s menu took rs sent walks unpoisoned soon =
      run_loop-unlooking (r.learned_at + from_secs 30) r.snapshot.app_id r.snapshot.focus_pid
        r.snapshot.focus_winid menu rs (round cfg sys to_string r s).0 soon
        (rw (round-stored cfg sys to_string r s menu took sent walks) (
          put-unpoisoned s.menus r.learned_at r.snapshot.app_id r.snapshot.focus_pid
              r.snapshot.focus_winid menu unpoisoned,
          λ now h.
              get-put_same s.menus r.learned_at now r.snapshot.app_id r.snapshot.focus_pid
                r.snapshot.focus_winid menu unpoisoned h,
        ))
