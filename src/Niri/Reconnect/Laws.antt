-- ===== src/Niri/Reconnect/Laws.antt =====
-- The waits between the sessions, and what a session publishes.
use noctalia_appmenu.Prelude.{
  ℕ, suc, ◌*◌, ◌^◌, ◌≤◌, ◌<◌, ◌≡◌, refl, ap, ◌⊎◌, inl, inr, map, leb, from_millis, trim, Bool, true,
  false, ◌&&◌, List, [], ◌∷◌, Option, none, some, arith, All, min, Bool-cases, Option-cases,
  Duration, Text,
}
use noctalia_appmenu.Niri.Detect.{NiriIpc}
use native.Mathlib.Nat.{pow-suc}
use noctalia_appmenu.Niri.Stream.{Round, Read, line, eof, failed, drive_events_with}
use noctalia_appmenu.Niri.Reconnect.{
  Attempt, run_from, run, next_backoff, backoff_floor, backoff_max, connected_reset_threshold,
  Handshake, error, Reply, handled, other_response, rejected, run_once, run_once_at, on_ack,
}

-- A wait that is long enough not to spin and short enough not to look dead.
abbrev pub InRange : Duration → Type 0
InRange d = (backoff_floor ≤ d) × (d ≤ backoff_max)

next_backoff-InRange : (b s : Duration) → InRange b → InRange (next_backoff b s)
unfolding next_backoff
next_backoff-InRange b s h = ground arith

run_from-InRange :
    (b : Duration) (attempts : List Attempt) → InRange b → All InRange (run_from b attempts).0
unfolding run_from
run_from-InRange b [] h = tt
run_from-InRange b (a ∷ rest) h = elim (Bool-cases a.is_closed) [
  | inl c ↦ rw c tt
  | inr c ↦ elim (Option-cases a.result) [
    | inl r ↦ rw (c, r) tt
    | inr (d, r) ↦
        rw (c, r)
          (
            next_backoff-InRange b d h,
            run_from-InRange (min (next_backoff b d * 2) backoff_max) rest
                (omega (arith, next_backoff-InRange b d h)),
          )
  ]
]

-- Every wait between two sessions is at least 250 ms and at most 30 s, whatever the sessions do.
pub run-InRange : (attempts : List Attempt) → All InRange (run attempts).0
unfolding run
run-InRange attempts = run_from-InRange backoff_floor attempts (omega arith)

-- A session that ends with an error after the given time.
abbrev pub failed_after : Duration → Attempt
failed_after d = record { is_closed = false; result = some d }

-- The waits 250 ms, 500 ms, 1 s and so on, from the given one, up to 30 s.
unfoldable pub doubling : ℕ → List Duration → List Duration
doubling i [] = []
doubling i (d ∷ ds) = min (backoff_floor * 2 ^ i) backoff_max ∷ doubling (suc i) ds

run_from-doubling :
    (i : ℕ) (ds : List Duration)
    → All (λ d. d < connected_reset_threshold) ds
    → (run_from (min (backoff_floor * 2 ^ i) backoff_max) (map failed_after ds)).0 ≡ doubling i ds
unfolding run_from doubling next_backoff
run_from-doubling i [] h = refl
run_from-doubling i (d ∷ ds) (h, hs) =
    let short : leb connected_reset_threshold d ≡ false = ground arith in
    let next : min (min (backoff_floor * 2 ^ i) backoff_max * 2) backoff_max
        ≡ min (backoff_floor * 2 ^ suc i) backoff_max =
      omega (arith, pow-suc 2 i) in
    rw (short, next)
      (ap (◌∷◌ (min (backoff_floor * 2 ^ i) backoff_max)) (run_from-doubling (suc i) ds hs))

-- While every session fails within 30 s, the n-th wait is 250 ms times 2 to the n, capped at 30 s.
pub run-doubling :
    (ds : List Duration)
    → All (λ d. d < connected_reset_threshold) ds
    → (run (map failed_after ds)).0 ≡ doubling 0 ds
unfolding run
run-doubling ds h = run_from-doubling 0 ds h

-- A session of 30 s or more forgets all failures before it: the next wait is 250 ms, and the one
-- after that starts from 500 ms.
pub run_from-reset :
    (b d : Duration) (rest : List Attempt)
    → connected_reset_threshold ≤ d
    → (run_from b (failed_after d ∷ rest)).0 ≡ backoff_floor ∷ (run_from (from_millis 500) rest).0
unfolding run_from next_backoff
run_from-reset b d rest h =
    let long : leb connected_reset_threshold d ≡ true = ground arith in rw long refl

on_ack-cases :
    (ipc : NiriIpc) (parse_reply : Text → Option Reply) (ack : Read) (rounds : List Round)
    → (on_ack ipc parse_reply ack rounds ≡ ([], error))
      ⊎ ((buf : Text) × (ack ≡ line buf)
          × (parse_reply (trim buf) ≡ some handled)
          × ((on_ack ipc parse_reply ack rounds).0 ≡ (drive_events_with ipc ipc.default rounds).0))
unfolding on_ack
on_ack-cases ipc parse_reply eof rounds = inl refl
on_ack-cases ipc parse_reply failed rounds = inl refl
on_ack-cases ipc parse_reply (line buf) rounds = split (parse_reply (trim buf)) refl
  where
    split :
        (r : Option Reply)
        → parse_reply (trim buf) ≡ r
        → (on_ack ipc parse_reply (line buf) rounds ≡ ([], error))
          ⊎ ((b : Text) × (line buf ≡ line b)
              × (parse_reply (trim b) ≡ some handled)
              × ((on_ack ipc parse_reply (line buf) rounds).0
                  ≡ (drive_events_with ipc ipc.default rounds).0))
    split none q = inl (rw (q, on_ack) refl)
    split (some handled) q = inr (buf, refl, q, rw (q, on_ack) refl)
    split (some other_response) q = inl (rw (q, on_ack) refl)
    split (some rejected) q = inl (rw (q, on_ack) refl)

-- The socket is connected, and the request is written to it.
abbrev pub IsOpened : Handshake → Type 0
IsOpened h = (h.connects ≡ true) × (h.serialises ≡ true) × (h.writes ≡ true) × (h.shuts ≡ true)

-- A session publishes nothing and ends with an error, unless the socket is named and opened and
-- niri's first line is a reply that parses as `Handled`; then it publishes what the event loop
-- publishes.
pub run_once-cases :
    (ipc : NiriIpc) (parse_reply : Text → Option Reply) (has_path : Bool) (h : Handshake)
    (rounds : List Round)
    → (run_once ipc parse_reply has_path h rounds ≡ ([], error))
      ⊎ ((buf : Text) × (has_path ≡ true)
          × IsOpened h
          × (h.ack ≡ line buf)
          × (parse_reply (trim buf) ≡ some handled)
          × ((run_once ipc parse_reply has_path h rounds).0
              ≡ (drive_events_with ipc ipc.default rounds).0))
unfolding run_once run_once_at
run_once-cases ipc parse_reply false h rounds = inl refl
run_once-cases ipc parse_reply true h rounds = elim (on_ack-cases ipc parse_reply h.ack rounds) [
  | inl e ↦ inl (ground arith)
  | inr (buf, a, p, out) ↦
      elim (Bool-cases (h.connects && (h.serialises && (h.writes && h.shuts)))) [
        | inl all ↦ inr (buf, refl, ground arith, a, p, ground arith)
        | inr some_not ↦ inl (ground arith)
      ]
]
