-- ===== src/Active/Debounce/Laws.antt =====
-- No focus change is lost at the end, and nothing is published that was not sent.
use noctalia_appmenu.Prelude.{
  ℕ, ◌+◌, ◌≤◌, ◌≡◌, refl, ◌≢◌, ◌⊎◌, inl, inr, Bool, true, false, List, [], ◌∷◌, ◌++◌, Option, none,
  some, arith, All, Any, All-append, length, length-append,
}
use noctalia_appmenu.Focus.{FocusEvent}
use noctalia_appmenu.Active.Snapshot.{ActiveSnapshot, snapshot}
use noctalia_appmenu.Active.Debounce.{
  Phase, sleeping, Debounce, Step, send, drop_sender, changed, changed_err, sleep_over, Reach,
  start, next,
}

-- The last element.
unfoldable pub last {ℓ} : {A : Type ℓ} → List A → Option A
last [] = none
last (x ∷ []) = some x
last (x ∷ y ∷ xs) = last (y ∷ xs)

pub last-concat {ℓ} : {A : Type ℓ} (xs : List A) (x : A) → last (xs ++ x ∷ []) ≡ some x
unfolding last
last-concat [] x = refl
last-concat (y ∷ []) x = refl
last-concat (y ∷ z ∷ xs) x = last-concat (z ∷ xs) x

-- The channel holds the value that was sent last, if any was.
abbrev HoldsLast : Debounce → Type 0
HoldsLast s = (last s.sent ≡ some s.latest) ⊎ ((s.sent ≡ []) × (s.latest ≡ none))

Step-HoldsLast : {s t : Debounce} → Step s t → HoldsLast s → HoldsLast t
Step-HoldsLast {s} (send v o) h = inl (last-concat s.sent v)
Step-HoldsLast drop_sender h = h
Step-HoldsLast (changed p u) h = h
Step-HoldsLast (changed_err p u c) h = h
Step-HoldsLast (sleep_over p) h = h

-- Unless there is something still to do, the last snapshot published is that of the channel's
-- value.
abbrev IsCaughtUp : Debounce → Type 0
IsCaughtUp s =
    (s.unseen ≡ true)
    ⊎ (s.phase ≡ sleeping)
    ⊎ (last s.published ≡ some (snapshot s.latest))
    ⊎ (s.sent ≡ [])

Step-IsCaughtUp : {s t : Debounce} → Step s t → IsCaughtUp s → IsCaughtUp t
Step-IsCaughtUp (send v o) h = inl refl
Step-IsCaughtUp drop_sender h = h
Step-IsCaughtUp (changed p u) h = inr (inl refl)
Step-IsCaughtUp (changed_err p u c) (inl a) = absurd (cc)
Step-IsCaughtUp (changed_err p u c) (inr (inl b)) = absurd (cc)
Step-IsCaughtUp (changed_err p u c) (inr (inr k)) = inr (inr k)
Step-IsCaughtUp {s} (sleep_over p) h = inr (inr (inl (last-concat s.published (snapshot s.latest))))

Reach-HoldsLast : {s : Debounce} → Reach s → HoldsLast s
Reach-HoldsLast start = inr (refl, refl)
Reach-HoldsLast (next r st) = Step-HoldsLast st (Reach-HoldsLast r)

Reach-IsCaughtUp : {s : Debounce} → Reach s → IsCaughtUp s
Reach-IsCaughtUp start = inr (inr (inr refl))
Reach-IsCaughtUp (next r st) = Step-IsCaughtUp st (Reach-IsCaughtUp r)

-- Once the task has nothing left to do, since it is not in its sleep and has seen the channel's
-- value, the last snapshot that it published is that of the last value sent, if any was sent: the
-- debounce loses no final focus change, whatever the interleaving.
pub Reach-settled :
    (s : Debounce)
    → Reach s
    → s.unseen ≡ false
    → s.phase ≢ sleeping
    → (s.sent ≡ [])
      ⊎ ((v : Option FocusEvent) × (last s.sent ≡ some v) × (last s.published ≡ some (snapshot v)))
Reach-settled s r u p = settle (Reach-HoldsLast r) (Reach-IsCaughtUp r)
  where
    settle :
        HoldsLast s
        → IsCaughtUp s
        → (s.sent ≡ [])
          ⊎ ((v : Option FocusEvent) × (last s.sent ≡ some v)
              × (last s.published ≡ some (snapshot v)))
    settle h (inl a) = absurd (cc)
    settle h (inr (inl b)) = absurd (p b)
    settle (inl h) (inr (inr (inl c))) = inr (s.latest, h, c)
    settle (inr (e, l)) (inr (inr (inl c))) = inl e
    settle h (inr (inr (inr e))) = inl e

-- Ones for what is pending.
abbrev one_if : Bool → ℕ
one_if true = 1
one_if false = 0

abbrev in_sleep : Phase → ℕ
in_sleep sleeping = 1
in_sleep _ = 0

-- Each publication is paid for by a value sent.
abbrev IsPaid : Debounce → Type 0
IsPaid s = length s.published + in_sleep s.phase + one_if s.unseen ≤ length s.sent

Step-IsPaid : {s t : Debounce} → Step s t → IsPaid s → IsPaid t
Step-IsPaid {s} (send v o) h = ground (arith, length-append s.sent (v ∷ []))
Step-IsPaid drop_sender h = h
Step-IsPaid (changed p u) h = ground arith
Step-IsPaid (changed_err p u c) h = ground arith
Step-IsPaid {s} (sleep_over p) h =
    ground (arith, length-append s.published (snapshot s.latest ∷ []))

Reach-IsPaid : {s : Debounce} → Reach s → IsPaid s
Reach-IsPaid start = omega arith
Reach-IsPaid (next r st) = Step-IsPaid st (Reach-IsPaid r)

-- The task publishes at most as often as values were sent: it coalesces.
pub Reach-length-le : (s : Debounce) → Reach s → length s.published ≤ length s.sent
Reach-length-le s r = omega (arith, Reach-IsPaid r)

-- The value of the channel is among those sent, unless nothing was sent and nothing is pending.
abbrev IsKnown : Debounce → Type 0
IsKnown s = Any (λ v. v ≡ s.latest) s.sent ⊎ ((s.unseen ≡ false) × (s.phase ≢ sleeping))

-- A snapshot of a value that was sent.
abbrev pub IsSent : List (Option FocusEvent) → ActiveSnapshot → Type 0
IsSent vs p = Any (λ v. p ≡ snapshot v) vs

Any-concat :
    (P : Option FocusEvent → Type 0) (vs : List (Option FocusEvent)) (v : Option FocusEvent)
    → P v
    → Any P (vs ++ v ∷ [])
Any-concat P [] v h = inl h
Any-concat P (w ∷ vs) v h = inr (Any-concat P vs v h)

Any-append :
    (P : Option FocusEvent → Type 0) (vs ws : List (Option FocusEvent))
    → Any P vs
    → Any P (vs ++ ws)
Any-append P [] ws h = absurd h
Any-append P (v ∷ vs) ws (inl h) = inl h
Any-append P (v ∷ vs) ws (inr h) = inr (Any-append P vs ws h)

Step-IsKnown : {s t : Debounce} → Step s t → IsKnown s → IsKnown t
Step-IsKnown {s} (send v o) h = inl (Any-concat (λ w. w ≡ v) s.sent v refl)
Step-IsKnown drop_sender h = h
Step-IsKnown (changed p u) (inl h) = inl h
Step-IsKnown (changed p u) (inr (f, n)) = absurd (cc)
Step-IsKnown (changed_err p u c) (inl h) = inl h
Step-IsKnown (changed_err p u c) (inr (f, n)) = inr (f, λ e. cc)
Step-IsKnown (sleep_over p) (inl h) = inl h
Step-IsKnown (sleep_over p) (inr (f, n)) = absurd (n p)

Reach-IsKnown : {s : Debounce} → Reach s → IsKnown s
Reach-IsKnown start = inr (refl, λ e. cc)
Reach-IsKnown (next r st) = Step-IsKnown st (Reach-IsKnown r)

IsSent-of_known :
    (vs : List (Option FocusEvent)) (x : Option FocusEvent)
    → Any (λ v. v ≡ x) vs
    → IsSent vs (snapshot x)
IsSent-of_known [] x h = absurd h
IsSent-of_known (v ∷ vs) x (inl e) = inl (rw e refl)
IsSent-of_known (v ∷ vs) x (inr h) = inr (IsSent-of_known vs x h)

All-IsSent-append :
    (vs ws : List (Option FocusEvent)) (ps : List ActiveSnapshot)
    → All (IsSent vs) ps
    → All (IsSent (vs ++ ws)) ps
All-IsSent-append vs ws [] h = tt
All-IsSent-append vs ws (p ∷ ps) (h, hs) =
    (Any-append (λ v. p ≡ snapshot v) vs ws h, All-IsSent-append vs ws ps hs)

Step-IsSent :
    {s t : Debounce}
    → Step s t
    → IsKnown s
    → All (IsSent s.sent) s.published
    → All (IsSent t.sent) t.published
Step-IsSent {s} (send v o) k h = All-IsSent-append s.sent (v ∷ []) s.published h
Step-IsSent drop_sender k h = h
Step-IsSent (changed p u) k h = h
Step-IsSent (changed_err p u c) k h = h
Step-IsSent {s} (sleep_over p) (inl k) h =
    All-append (IsSent s.sent) s.published (snapshot s.latest ∷ []) h
      (IsSent-of_known s.sent s.latest k, tt)
Step-IsSent (sleep_over p) (inr (f, n)) h = absurd (n p)

-- Whatever the interleaving of sends, wake-ups and sleeps, every snapshot that the task publishes
-- is the snapshot of a value that was sent.
pub Reach-IsSent : {s : Debounce} → Reach s → All (IsSent s.sent) s.published
Reach-IsSent start = tt
Reach-IsSent (next r st) = Step-IsSent st (Reach-IsKnown r) (Reach-IsSent r)
