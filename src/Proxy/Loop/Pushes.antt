-- ===== src/Proxy/Loop/Pushes.antt =====
-- What the widget is told: every change of the payload, and nothing twice, but on a forced refresh.
use mathlib.Core.Path.{subst}
use mathlib.Core.List.{append_assoc, append-nil}
use noctalia_appmenu.Prelude.{
  ◌≡◌, refl, sym, ap, ◌∙◌, inl, inr, Bool, true, false, Bool-cases, List, [], ◌∷◌, ◌++◌, Option,
  none, some, All, if◌then◌else◌, Text,
}
use noctalia_appmenu.Config.{Config}
use noctalia_appmenu.Desktop.Resolve.{System}
use noctalia_appmenu.Active.Snapshot.{empty as no_snapshot}
use noctalia_appmenu.Proxy.Write.{
  empty, Payload, payload_of, Writer, is_body, write_body, Disk, write_active_json,
}
use noctalia_appmenu.Proxy.Write.Laws.{is_body_sound}
use noctalia_appmenu.Proxy.Loop.{
  Bridge, Round, Wake, focus_changed, refresh_kick, on_wake, eager_choice, eager_write,
  publish_props, final_write, round, after_restart, run_loop, start,
}
use noctalia_appmenu.Proxy.Loop.Provenance.{resolve_menu-writer}
use noctalia_appmenu.Proxy.Loop.Spec.{
  memory, Succeeds, spec_round, spec_finish, spec_round-memory, eager_part, round-final_write,
  round-memory,
}

-- A body, and whether it is to be told in any case.
abbrev pub Request : Type 0
Request = Bool × Text

-- What is told of these, where the given body was told last: all that differ from the one before.
unfoldable pub changes : Option Text → List Request → List Text
changes last [] = []
changes last ((forced, body) ∷ rest) =
    let later = changes (some body) rest in
    if is_body (if forced then none else last) body then later else body ∷ later

abbrev pub is_refresh : Wake → Bool
is_refresh focus_changed = false
is_refresh refresh_kick = true

-- A write that succeeds tells its body as the list says, and remembers it.
write_body-changes :
    (body : Text) (left : Option Text) (w : Writer) (rest : List Request)
    → ((write_body body true left w).last_body ≡ some body)
      × ((write_body body true left w).pushed ++ changes (some body) rest
          ≡ w.pushed ++ changes w.last_body ((false, body) ∷ rest))
unfolding write_body changes
write_body-changes body left w rest = elim (Bool-cases (is_body w.last_body body)) [
  | inl same ↦ rw same (is_body_sound w.last_body body same, refl)
  | inr new ↦ rw new (refl, append_assoc w.pushed (body ∷ []) (changes (some body) rest))
]

one_write :
    (body : Text) (left : Option Text) (writes : Bool) (w : Writer) (rest : List Request)
    → writes ≡ true
    → (write_body body writes left w).pushed
        ++ changes (write_body body writes left w).last_body rest
      ≡ w.pushed ++ changes w.last_body ((false, body) ∷ rest)
one_write body left writes w rest h =
    let (remembers, tells) = write_body-changes body left w rest in
    rw h (ap (λ o. (write_body body true left w).pushed ++ changes o rest) remembers ∙ tells)

on_wake-changes :
    (wake : Wake) (w : Writer) (body : Text) (rest : List Request)
    → (on_wake wake w).pushed ++ changes (on_wake wake w).last_body ((false, body) ∷ rest)
      ≡ w.pushed ++ changes w.last_body ((is_refresh wake, body) ∷ rest)
unfolding on_wake changes
on_wake-changes focus_changed w body rest = refl
on_wake-changes refresh_kick w body rest = refl

both_write :
    (body eager : Text) (left left' : Option Text) (writes writes' : Bool) (w : Writer)
    → writes ≡ true
    → writes' ≡ true
    → write_body body writes left (write_body eager writes' left' w)
      ≡ write_body body true left (write_body eager true left' w)
both_write body eager left left' writes writes' w h k = rw (h, k) refl

-- The state after the last of the rounds.
abbrev pub end_of : Bridge → List Bridge → Bridge
end_of s [] = s
end_of s (t ∷ ts) = end_of t ts

module _ (cfg : Config) (sys : System) (to_string : Payload → Text) where
  abbrev pub eager_body : Round → Bridge → Text
  eager_body r m =
      let (menu, source) = (eager_choice cfg sys to_string r m).1 in
      to_string (payload_of r.snapshot menu source)

  -- What a round asks to be told: its eager payload, in any case on a refresh, and the one that it
  -- is about.
  abbrev pub requests : Round → Bridge → List Request
  requests r m =
      (is_refresh r.wake, eager_body r m)
      ∷ (false, to_string (spec_round cfg sys to_string r m).1)
      ∷ []

  unfoldable pub run_requests : Bridge → List Round → List Request
  run_requests m [] = []
  run_requests m (r ∷ rs) =
      let before = after_restart r.restarted m in
      requests r before ++ run_requests (spec_round cfg sys to_string r before).0 rs

  round-writer :
      (r : Round) (s : Bridge)
      → r.signals_sent ≡ true
      → (round cfg sys to_string r s).0.writer
        ≡ write_body
            (to_string (spec_round cfg sys to_string r (memory s)).1)
            r.final_disk.writes
            r.final_disk.left
            (write_body
              (eager_body r (memory s))
              r.eager_disk.writes
              r.eager_disk.left
              (on_wake r.wake s.writer))
  unfolding final_write write_active_json publish_props eager_write eager_choice spec_finish
  round-writer r s sent =
      ap (λ x. x.0.writer) (round-final_write cfg sys to_string r s sent)
      ∙ (rw
          (
            spec_round-memory cfg sys to_string r s,
            resolve_menu-writer cfg sys to_string r (eager_part cfg sys to_string r s),
          )
          refl)

  pub round-changes :
      (r : Round) (s : Bridge) (rest : List Request)
      → Succeeds r
      → ((round cfg sys to_string r s).0.writer.last_body
          ≡ some (to_string (spec_round cfg sys to_string r (memory s)).1))
        × ((round cfg sys to_string r s).0.writer.pushed
              ++ changes (round cfg sys to_string r s).0.writer.last_body rest
            ≡ s.writer.pushed ++ changes s.writer.last_body (requests r (memory s) ++ rest))
  round-changes r s rest (eager_ok, final_ok, sent) =
      let body = to_string (spec_round cfg sys to_string r (memory s)).1 in
      let woken = on_wake r.wake s.writer in
      let eager = write_body (eager_body r (memory s)) true r.eager_disk.left woken in
      let (remembers, tells) = write_body-changes body r.final_disk.left eager rest in
      let (kept, told) =
        write_body-changes (eager_body r (memory s)) r.eager_disk.left woken
          ((false, body) ∷ rest) in
      let chain =
        ap (λ o. (write_body body true r.final_disk.left eager).pushed ++ changes o rest) remembers
        ∙ tells
        ∙ ap (λ o. eager.pushed ++ changes o ((false, body) ∷ rest)) kept
        ∙ told
        ∙ on_wake-changes r.wake s.writer (eager_body r (memory s)) ((false, body) ∷ rest) in
      let same =
        round-writer r s sent
        ∙ both_write body (eager_body r (memory s)) r.final_disk.left r.eager_disk.left
            r.final_disk.writes r.eager_disk.writes woken final_ok eager_ok in
      subst
        (λ w.
          (w.last_body ≡ some body)
          × (w.pushed ++ changes w.last_body rest
              ≡ s.writer.pushed ++ changes s.writer.last_body (requests r (memory s) ++ rest)))
        (sym same) (remembers, chain)

  run_loop-changes :
      (rs : List Round) (s : Bridge)
      → All Succeeds rs
      → (end_of s (run_loop cfg sys to_string s rs)).writer.pushed
        ≡ s.writer.pushed ++ changes s.writer.last_body (run_requests (memory s) rs)
  unfolding run_loop run_requests changes after_restart
  run_loop-changes [] s ok = sym (append-nil s.writer.pushed)
  run_loop-changes (r ∷ rs) s (ok, oks) =
      let before = after_restart r.restarted s in
      let next = (round cfg sys to_string r before).0 in
      let m = round-memory cfg sys to_string r before ok.2 in
      let goes_on = ap (λ z. z.1) (round-final_write cfg sys to_string r before ok.2) in
      rw goes_on (
        run_loop-changes rs next oks
        ∙ ap (λ x. next.writer.pushed ++ changes next.writer.last_body (run_requests x rs)) m
        ∙ (round-changes r before
            (run_requests (spec_round cfg sys to_string r (memory before)).0 rs) ok).1)

  -- What the widget is told in the course of the loop, from its start on: of the empty payload
  -- first, and then of each round's eager payload and of the one that the abstract round is about,
  -- in this order, exactly those that differ from the one told before, and the eager payload of a
  -- forced refresh in any case. (The writes and signals succeed.)
  pub run_loop-pushed :
      (disk : Disk) (s : Bridge) (rs : List Round)
      → disk.writes ≡ true
      → All Succeeds rs
      → (end_of
          (start cfg sys to_string disk s)
          (run_loop cfg sys to_string (start cfg sys to_string disk s) rs)).writer.pushed
        ≡ s.writer.pushed
          ++ changes none
              ((false, to_string (payload_of no_snapshot none empty)) ∷ run_requests (memory s) rs)
  unfolding start write_active_json
  run_loop-pushed disk s rs ok oks =
      let body = to_string (payload_of no_snapshot none empty) in
      let started = start cfg sys to_string disk s in
      let later = run_requests (memory s) rs in
      run_loop-changes rs started oks
      ∙ one_write body disk.left disk.writes (record s.writer { last_body = none }) later ok
