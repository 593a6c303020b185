-- ===== src/Niri/Reconnect/Task.antt =====
-- `run` of bridge/src/niri.rs with its sessions: what the niri task publishes across reconnects,
-- how long it waits, and when it returns.
use noctalia_appmenu.Prelude.{
  ◌*◌, ◌≡◌, refl, ap, ◌⊎◌, inl, inr, Bool, true, false, List, [], ◌∷◌, ◌++◌, Option, none, some,
  arith, All, Any, min, trim, Text, Duration,
}
use noctalia_appmenu.Niri.Detect.{NiriIpc}
use noctalia_appmenu.Niri.Stream.{
  Read, line, eof, failed, Round, Ended, closed, stream_closed, read_error, waiting,
  drive_events_with,
}
use noctalia_appmenu.Niri.Stream.Laws.{end_of, drive_events_with-end_of}
use noctalia_appmenu.Niri.Reconnect.{
  Reply, Handshake, handled, other_response, rejected, after_ack, on_ack, run_once_at, Session,
  done, error, open_still, Published, session_of, run_once, next_backoff, backoff_floor,
  backoff_max, Attempt, run_from, run,
}
use noctalia_appmenu.Niri.Reconnect.Laws.{InRange, run-InRange}

-- One round of the loop: whether the channel is closed at its head, whether there is a socket path,
-- what the session meets, and how long it lasts.
pub record Visit : Type 0 where
  pub is_closed : Bool
  pub has_path : Bool
  pub handshake : Handshake
  pub rounds : List Round
  pub lasted : Duration

module _ (ipc : NiriIpc) (parse_reply : Text → Option Reply) where
  abbrev pub visit : Visit → Published × Session
  visit v = run_once ipc parse_reply v.has_path v.handshake v.rounds

  -- The arms on a session, before what comes after its wait: what the task publishes, its waits,
  -- and whether it has returned.
  abbrev pub resume :
      Bool
      → Published × Session
      → Duration
      → Published × (List Duration × Bool)
      → Published × (List Duration × Bool)
  resume true session wait later = ([], ([], true))
  resume false (out, done) wait later = (out, ([], true))
  resume false (out, open_still) wait later = (out, ([], false))
  resume false (out, error) wait (later, (waits, returned)) =
      (out ++ later, (wait ∷ waits, returned))

  unfoldable pub run_task_from : Duration → List Visit → Published × (List Duration × Bool)
  run_task_from backoff [] = ([], ([], false))
  run_task_from backoff (v ∷ vs) =
      let wait = next_backoff backoff v.lasted in
      resume v.is_closed (visit v) wait (run_task_from (min (wait * 2) backoff_max) vs)

  unfoldable pub run_task : List Visit → Published × (List Duration × Bool)
  run_task = run_task_from backoff_floor

  session_of-done : (end : Ended) → session_of end ≡ done → end ≡ closed
  session_of-done closed e = refl
  session_of-done stream_closed e = absurd (cc)
  session_of-done read_error e = absurd (cc)
  session_of-done waiting e = absurd (cc)

  after_ack-done :
      (reply : Option Reply) (rounds : List Round)
      → (after_ack ipc parse_reply reply rounds).1 ≡ done
      → end_of rounds ≡ closed
  unfolding after_ack
  after_ack-done (some handled) rounds e =
      rw (← drive_events_with-end_of ipc ipc.default rounds)
        (session_of-done (drive_events_with ipc ipc.default rounds).1 e)
  after_ack-done (some other_response) rounds e = absurd (cc)
  after_ack-done (some rejected) rounds e = absurd (cc)
  after_ack-done none rounds e = absurd (cc)

  on_ack-done :
      (ack : Read) (rounds : List Round)
      → (on_ack ipc parse_reply ack rounds).1 ≡ done
      → end_of rounds ≡ closed
  unfolding on_ack
  on_ack-done (line buf) rounds e = after_ack-done (parse_reply (trim buf)) rounds e
  on_ack-done eof rounds e = absurd (cc)
  on_ack-done failed rounds e = absurd (cc)

  visit-done : (v : Visit) → (visit v).1 ≡ done → end_of v.rounds ≡ closed
  unfolding run_once run_once_at
  visit-done v e = on_ack-done v.handshake.ack v.rounds (ground arith)

  -- The receiver is gone: at the head of the loop, or at a line of an open session.
  abbrev pub IsGone : Visit → Type 0
  IsGone v = (v.is_closed ≡ true) ⊎ (end_of v.rounds ≡ closed)

  resume-returned :
      (closed : Bool) (session : Published × Session) (wait : Duration)
      (later : Published × (List Duration × Bool))
      → (resume closed session wait later).1.1 ≡ true
      → ((closed ≡ true) ⊎ (session.1 ≡ done)) ⊎ (later.1.1 ≡ true)
  resume-returned true session wait later e = inl (inl refl)
  resume-returned false (out, done) wait later e = inl (inr refl)
  resume-returned false (out, open_still) wait later e = absurd (cc)
  resume-returned false (out, error) wait (later, (waits, returned)) e = inr e

  run_task_from-returned :
      (b : Duration) (vs : List Visit) → (run_task_from b vs).1.1 ≡ true → Any IsGone vs
  unfolding run_task_from
  run_task_from-returned b [] e = absurd (cc)
  run_task_from-returned b (v ∷ vs) e =
      let wait = next_backoff b v.lasted in
      elim (resume-returned v.is_closed (visit v) wait
        (run_task_from (min (wait * 2) backoff_max) vs) e) [
          | inl (inl c) ↦ inl (inl c)
          | inl (inr d) ↦ inl (inr (visit-done v d))
          | inr r ↦ inr (run_task_from-returned (min (wait * 2) backoff_max) vs r)
        ]

  -- The niri task returns only where the receiver of its channel is gone: no failed connection,
  -- refused subscription, closed socket, read error or line ends it.
  pub run_task-IsGone : (vs : List Visit) → (run_task vs).1.1 ≡ true → Any IsGone vs
  unfolding run_task
  run_task-IsGone vs e = run_task_from-returned backoff_floor vs e

  -- The task as the loop of attempts that its sessions come to.
  abbrev attempt : Bool → Session → Duration → List Attempt → List Attempt
  attempt true session lasted rest = record { is_closed = true; result = none } ∷ []
  attempt false done lasted rest = record { is_closed = false; result = none } ∷ rest
  attempt false error lasted rest = record { is_closed = false; result = some lasted } ∷ rest
  attempt false open_still lasted rest = []

  abbrev attempts : List Visit → List Attempt
  attempts [] = []
  attempts (v ∷ vs) = attempt v.is_closed (visit v).1 v.lasted (attempts vs)

  resume-run_from :
      (closed : Bool) (session : Published × Session) (b lasted : Duration)
      (later : Published × (List Duration × Bool)) (rest : List Attempt)
      → later.1 ≡ run_from (min (next_backoff b lasted * 2) backoff_max) rest
      → (resume closed session (next_backoff b lasted) later).1
        ≡ run_from b (attempt closed session.1 lasted rest)
  unfolding run_from
  resume-run_from true session b lasted later rest e = refl
  resume-run_from false (out, done) b lasted later rest e = refl
  resume-run_from false (out, open_still) b lasted later rest e = refl
  resume-run_from false (out, error) b lasted (later, (waits, returned)) rest e =
      ap (λ r. (next_backoff b lasted ∷ r.0, r.1)) e

  run_task_from-run_from :
      (b : Duration) (vs : List Visit) → (run_task_from b vs).1 ≡ run_from b (attempts vs)
  unfolding run_task_from run_from
  run_task_from-run_from b [] = refl
  run_task_from-run_from b (v ∷ vs) =
      let next = min (next_backoff b v.lasted * 2) backoff_max in
      resume-run_from v.is_closed (visit v) b v.lasted (run_task_from next vs) (attempts vs)
        (run_task_from-run_from next vs)

  -- Whatever its sessions meet, every wait of the niri task between two of them is between 250 ms
  -- and 30 s: it neither spins nor stops trying.
  pub run_task-InRange : (vs : List Visit) → All InRange (run_task vs).1.0
  unfolding run_task run
  run_task-InRange vs = rw (run_task_from-run_from backoff_floor vs) (run-InRange (attempts vs))
