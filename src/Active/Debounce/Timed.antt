-- ===== src/Active/Debounce/Timed.antt =====
-- `run` of bridge/src/active.rs with the clock: how often it publishes, and how late.
use noctalia_appmenu.Prelude.{
  ℕ, ◌+◌, ◌*◌, ◌≤◌, ◌<◌, ◌≡◌, refl, sym, ◌≢◌, ◌⊎◌, inl, inr, Bool, true, false, List, [], ◌∷◌,
  Option, some, arith, length, length-append, Instant, Duration, Bool-cases,
}
use noctalia_appmenu.Focus.{FocusEvent}
use noctalia_appmenu.Active.Snapshot.{snapshot}
use noctalia_appmenu.Active.Debounce.{
  Phase, awaiting, sleeping, returned, Debounce, initial, after_send, after_changed, after_sleep,
  Step, Reach, start, next,
}
use noctalia_appmenu.Active.Debounce.Laws.{last, Reach-settled}

-- The task, the clock, the instant at which its sleep ends, that of the last send, and those at
-- which it published, the newest first.
pub record Clocked : Type 0 where
  pub task : Debounce
  pub now : Instant
  pub wake_at : Instant
  pub sent_at : Instant
  pub published_at : List Instant

abbrev pub clock_start : Clocked
clock_start = record { task = initial; now = 0; wake_at = 0; sent_at = 0; published_at = [] }

abbrev pub clock_send : Clocked → Option FocusEvent → Clocked
clock_send c v = record c { task = after_send c.task v; sent_at = c.now }

-- `tokio::time::sleep(debounce)` begins.
abbrev pub clock_changed : Duration → Clocked → Clocked
clock_changed debounce c = record c { task = after_changed c.task; wake_at = c.now + debounce }

abbrev pub clock_sleep_over : Clocked → Clocked
clock_sleep_over c = record c { task = after_sleep c.task; published_at = c.now ∷ c.published_at }

-- The scheduler is prompt: time does not pass a task that can take the value or whose sleep is
-- over.
abbrev pub IsPrompt : Clocked → ℕ → Type 0
IsPrompt c n =
    (c.task.phase ≡ awaiting → c.task.unseen ≡ false)
    × (c.task.phase ≡ sleeping → c.now + n ≤ c.wake_at)

-- `debounce` is `Duration::from_millis(cfg.focus_debounce_ms)`.
module _ (debounce : Duration) (may_pass : Clocked → ℕ → Type 0) where
  -- A step of the sender, of the task, or of the clock, where the scheduler lets it pass.
  pub data Tick (c : Clocked) : Clocked → Type 0 where
    passes : (n : ℕ) → may_pass c n → Tick c (record c { now = c.now + n })
    sends : (v : Option FocusEvent) → c.task.is_closed ≡ false → Tick c (clock_send c v)
    drops_sender : Tick c (record c { task = record c.task { is_closed = true } })
    changes : c.task.phase ≡ awaiting → c.task.unseen ≡ true → Tick c (clock_changed debounce c)
    returns :
        c.task.phase ≡ awaiting
        → c.task.unseen ≡ false
        → c.task.is_closed ≡ true
        → Tick c (record c { task = record c.task { phase = returned } })
    wakes : c.task.phase ≡ sleeping → c.wake_at ≤ c.now → Tick c (clock_sleep_over c)

  pub data Run : Clocked → Type 0 where
    begins : Run clock_start
    goes_on : {c e : Clocked} → Run c → Tick c e → Run e

  -- A run with the clock is one without.
  pub Run-Reach : {c : Clocked} → Run c → Reach c.task
  Run-Reach begins = start
  Run-Reach (goes_on r (passes n p)) = Run-Reach r
  Run-Reach (goes_on r (sends v o)) = next (Run-Reach r) (Step.send v o)
  Run-Reach (goes_on r drops_sender) = next (Run-Reach r) Step.drop_sender
  Run-Reach (goes_on r (changes p u)) = next (Run-Reach r) (Step.changed p u)
  Run-Reach (goes_on r (returns p u c)) = next (Run-Reach r) (Step.changed_err p u c)
  Run-Reach (goes_on r (wakes p w)) = next (Run-Reach r) (Step.sleep_over p)

  -- Instants, the newest first, that are a debounce or more apart, the oldest too from the start.
  abbrev pub IsSpaced : List Instant → Type 0
  IsSpaced [] = Unit
  IsSpaced (t ∷ []) = debounce ≤ t
  IsSpaced (t ∷ s ∷ ts) = (s + debounce ≤ t) × IsSpaced (s ∷ ts)

  -- Another publication at that instant would keep the distance.
  abbrev IsDue : Instant → List Instant → Type 0
  IsDue t ts = IsSpaced (t ∷ ts)

  IsDue-later : (t u : Instant) (ts : List Instant) → t ≤ u → IsDue t ts → IsDue u ts
  IsDue-later t u [] le h = omega arith
  IsDue-later t u (s ∷ ts) le (h, hs) = (omega arith, hs)

  -- The end of the sleep is a debounce after the last publication, which is not in the future.
  abbrev Paced : Clocked → Type 0
  Paced c =
      IsDue (c.now + debounce) c.published_at
      × (c.task.phase ≡ sleeping → IsDue c.wake_at c.published_at)

  Tick-Paced : {c e : Clocked} → Tick c e → Paced c → Paced e
  Tick-Paced {c} (passes n p) (h, k) =
      (IsDue-later (c.now + debounce) (c.now + n + debounce) c.published_at (omega arith) h, k)
  Tick-Paced (sends v o) h = h
  Tick-Paced drops_sender h = h
  Tick-Paced (changes p u) (h, k) = (h, λ e. h)
  Tick-Paced (returns p u c) (h, k) = (h, λ e. cc)
  Tick-Paced {c} (wakes p w) (h, k) =
      ((omega arith, IsDue-later c.wake_at c.now c.published_at w (k p)), λ e. cc)

  Run-Paced : {c : Clocked} → Run c → Paced c
  Run-Paced begins = (omega arith, λ e. cc)
  Run-Paced (goes_on r t) = Tick-Paced t (Run-Paced r)

  -- The count behind a spacing.
  IsDue-count : (t : Instant) (ts : List Instant) → IsDue t ts → length ts * debounce + debounce ≤ t
  IsDue-count t [] h = omega arith
  IsDue-count t (s ∷ ts) (h, hs) = ground (arith, IsDue-count s ts hs)

  IsSpaced-of_due : (t : Instant) (ts : List Instant) → IsDue t ts → IsSpaced ts
  IsSpaced-of_due t [] h = tt
  IsSpaced-of_due t (s ∷ ts) h = h.1

  -- Each publication has its instant.
  Run-length : {c : Clocked} → Run c → length c.published_at ≡ length c.task.published
  Run-length begins = refl
  Run-length (goes_on r (passes n p)) = Run-length r
  Run-length (goes_on r (sends v o)) = Run-length r
  Run-length (goes_on r drops_sender) = Run-length r
  Run-length (goes_on r (changes p u)) = Run-length r
  Run-length (goes_on r (returns p u c)) = Run-length r
  Run-length (goes_on {c} r (wakes p w)) =
      ground (arith, Run-length r, length-append c.task.published (snapshot c.task.latest ∷ []))

  -- Whatever the scheduler does, the instants of the publications are the debounce or more apart,
  -- the first from the start; so within any time t the task publishes at most t / debounce
  -- snapshots, however often the focus changes.
  pub Run-IsSpaced :
      (c : Clocked) → Run c → IsSpaced c.published_at × (length c.task.published * debounce ≤ c.now)
  Run-IsSpaced c r =
      let due = (Run-Paced r).0 in
      let counted = IsDue-count (c.now + debounce) c.published_at due in
      (IsSpaced-of_due (c.now + debounce) c.published_at due, rw (← Run-length r) (omega arith))

  -- What is pending is recent.
  abbrev Recent : Clocked → Type 0
  Recent c =
      (c.task.phase ≡ awaiting → c.task.unseen ≡ true → c.now ≤ c.sent_at)
      × (c.task.phase ≡ sleeping → (c.now ≤ c.wake_at) × (c.wake_at ≤ c.sent_at + debounce))
      × (c.task.phase ≡ returned → (c.task.is_closed ≡ true) × (c.task.unseen ≡ false))
      × (c.sent_at ≤ c.now)

  module _ (prompt : (c : Clocked) (n : ℕ) → may_pass c n → IsPrompt c n) where
    false-ne-true : {b : Bool} → b ≡ false → b ≢ true
    false-ne-true f t = absurd (cc)

    Tick-Recent : {c e : Clocked} → Tick c e → Recent c → Recent e
    Tick-Recent {c} (passes n p) (a, s, r, m) =
        let (idle, asleep) = prompt c n p in
        ((λ w u. absurd (false-ne-true (idle w) u)), (λ w. (asleep w, (s w).1)), r, omega arith)
    Tick-Recent {c} (sends v o) (a, s, r, m) = (
      (λ w u. omega arith),
      (λ w. let (le, soon) = s w in (le, omega arith)),
      (λ w. absurd (false-ne-true o (r w).0)),
      omega arith,
    )
    Tick-Recent drops_sender (a, s, r, m) = (a, s, (λ w. (refl, (r w).1)), m)
    Tick-Recent (changes p u) (a, s, r, m) =
        (λ w. cc, (λ w. (omega arith, omega arith)), (λ w. cc), m)
    Tick-Recent (returns p u c) (a, s, r, m) = ((λ w. cc), (λ w. cc), (λ w. (c, u)), m)
    Tick-Recent (wakes p w) (a, s, r, m) = ((λ x y. cc), (λ x. cc), (λ x. cc), m)

    Run-Recent : {c : Clocked} → Run c → Recent c
    Run-Recent begins = ((λ w u. cc), (λ w. cc), (λ w. cc), omega arith)
    Run-Recent (goes_on r t) = Tick-Recent t (Run-Recent r)

    -- Under a prompt scheduler the task is never late: more than a debounce after the last send,
    -- the last snapshot that it published is that of the value sent last, if any was sent.
    pub Run-settled :
        (c : Clocked)
        → Run c
        → c.sent_at + debounce < c.now
        → (c.task.sent ≡ [])
          ⊎ ((v : Option FocusEvent) × (last c.task.sent ≡ some v)
              × (last c.task.published ≡ some (snapshot v)))
    Run-settled c r late =
        let (pending, asleep, ended, _) = Run-Recent r in
        let awake : c.task.phase ≢ sleeping =
          λ w. let (le, soon) = asleep w in absurd (omega arith) in
        Reach-settled c.task (Run-Reach r) (seen c.task.phase refl pending awake ended) awake
      where
        seen :
            (p : Phase)
            → p ≡ c.task.phase
            → (c.task.phase ≡ awaiting → c.task.unseen ≡ true → c.now ≤ c.sent_at)
            → c.task.phase ≢ sleeping
            → (c.task.phase ≡ returned → (c.task.is_closed ≡ true) × (c.task.unseen ≡ false))
            → c.task.unseen ≡ false
        seen awaiting w pending awake ended = elim (Bool-cases c.task.unseen) [
          | inl u ↦ let le = pending (sym w) u in absurd (omega arith)
          | inr u ↦ u
        ]
        seen sleeping w pending awake ended = absurd (awake (sym w))
        seen returned w pending awake ended = (ended (sym w)).1
