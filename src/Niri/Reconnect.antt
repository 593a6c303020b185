-- ===== src/Niri/Reconnect.antt =====
-- `run_once_at`, `next_backoff` and `run`: one session with niri, and the reconnects.
pub mod Laws
pub mod Task
pub mod Told
use noctalia_appmenu.Prelude.{
  ℕ, ◌*◌, Bool, true, false, List, [], ◌∷◌, Option, none, some, leb, min, trim, Text, if◌then◌else◌,
  Duration, from_millis, from_secs,
}
use noctalia_appmenu.Focus.{FocusEvent}
use noctalia_appmenu.Niri.Detect.{NiriIpc}
use noctalia_appmenu.Niri.Stream.{
  Read, line, eof, failed, Round, Ended, closed, stream_closed, read_error, waiting,
  drive_events_with,
}

-- niri's reply to the subscription, as the code tells it apart.
pub data Reply : Type 0 where
  handled : Reply
  other_response : Reply
  rejected : Reply

-- What happens on the socket before the first event.
pub record Handshake : Type 0 where
  pub connects : Bool
  pub serialises : Bool
  pub writes : Bool
  pub shuts : Bool
  pub ack : Read

-- How a session ends: `Ok(())`, an error, or it is still open.
pub data Session : Type 0 where
  done : Session
  error : Session
  open_still : Session

abbrev session_of : Ended → Session
session_of closed = done
session_of stream_closed = error
session_of read_error = error
session_of waiting = open_still

abbrev pub Published : Type 0
Published = List (Option FocusEvent)

module _ (ipc : NiriIpc) (parse_reply : Text → Option Reply) where
  after_ack : Option Reply → List Round → Published × Session
  after_ack (some handled) rounds =
      let (out, end) = drive_events_with ipc ipc.default rounds in (out, session_of end)
  after_ack (some other_response) rounds = ([], error)
  after_ack (some rejected) rounds = ([], error)
  after_ack none rounds = ([], error)

  on_ack : Read → List Round → Published × Session
  unfolding after_ack
  on_ack (line buf) rounds = after_ack (parse_reply (trim buf)) rounds
  on_ack eof rounds = ([], error)
  on_ack failed rounds = ([], error)

  unfoldable pub run_once_at : Handshake → List Round → Published × Session
  unfolding on_ack
  run_once_at h rounds =
      if h.connects
      then (if h.serialises
          then (if h.writes
              then (if h.shuts then on_ack h.ack rounds else ([], error))
              else ([], error))
          else ([], error))
      else ([], error)

  -- `run_once`: with no socket path in the environment the session fails.
  unfoldable pub run_once : Bool → Handshake → List Round → Published × Session
  run_once has_path h rounds = if has_path then run_once_at h rounds else ([], error)

-- `BACKOFF_FLOOR`, `BACKOFF_MAX` and `CONNECTED_RESET_THRESHOLD`
abbrev pub backoff_floor : Duration
backoff_floor = from_millis 250

abbrev pub backoff_max : Duration
backoff_max = from_secs 30

abbrev pub connected_reset_threshold : Duration
connected_reset_threshold = from_secs 30

unfoldable pub next_backoff : Duration → Duration → Duration
next_backoff current session =
    if leb connected_reset_threshold session then backoff_floor else current

-- One round of `run`: whether the channel is closed at its head, and the session, that ends with
-- `Ok(())` or with an error after some time.
pub record Attempt : Type 0 where
  pub is_closed : Bool
  pub result : Option Duration

-- The waits of `run`, and whether it returned.
unfoldable pub run_from : Duration → List Attempt → List Duration × Bool
run_from backoff [] = ([], false)
run_from backoff (a ∷ rest) = if a.is_closed then ([], true) else elim a.result [
  | none ↦ ([], true)
  | some session ↦
      let wait = next_backoff backoff session in
      let (waits, returned) = run_from (min (wait * 2) backoff_max) rest in (wait ∷ waits, returned)
]

unfoldable pub run : List Attempt → List Duration × Bool
run = run_from backoff_floor
