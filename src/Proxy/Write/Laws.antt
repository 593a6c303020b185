-- ===== src/Proxy/Write/Laws.antt =====
-- Deduplication: what is skipped has been written before.
use mathlib.Core.Path.{subst}
use noctalia_appmenu.Prelude.{
  ◌≡◌, refl, ◌≢◌, inl, inr, Bool, true, false, List, [], ◌∷◌, ◌++◌, Option, none, some, arith,
  Bool-cases, Text,
}
use noctalia_appmenu.Prelude.Str.Laws.{text_eq_iff, text_eq_refl}
use noctalia_appmenu.Menu.Tree.{MenuItem}
use noctalia_appmenu.Active.Snapshot.{ActiveSnapshot}
use noctalia_appmenu.Proxy.Write.{
  MenuSource, Payload, payload_of, Writer, is_body, write_body, Disk, write_active_json,
}

-- The last element.
abbrev pub last_of : List Text → Option Text
last_of [] = none
last_of (x ∷ []) = some x
last_of (x ∷ y ∷ xs) = last_of (y ∷ xs)

last_of-concat : (xs : List Text) (x : Text) → last_of (xs ++ x ∷ []) ≡ some x
last_of-concat [] x = refl
last_of-concat (y ∷ []) x = refl
last_of-concat (y ∷ z ∷ xs) x = last_of-concat (z ∷ xs) x

-- The body that is remembered, if any, is the one in the file, and the one that was pushed last.
abbrev pub IsSyncedTo : Option Text → Option Text → List Text → Type 0
IsSyncedTo none file pushed = Unit
IsSyncedTo (some b) file pushed = (file ≡ some b) × (last_of pushed ≡ some b)

abbrev pub IsSynced : Writer → Type 0
IsSynced w = IsSyncedTo w.last_body w.file w.pushed

pub is_body_sound : (o : Option Text) (b : Text) → is_body o b ≡ true → o ≡ some b
is_body_sound none b h = absurd (cc)
is_body_sound (some a) b h = rw ((text_eq_iff a b).0 h) refl

write_body-IsSynced :
    (body : Text) (left : Option Text) (w : Writer)
    → IsSynced w
    → ((write_body body true left w).file ≡ some body)
      × (last_of (write_body body true left w).pushed ≡ some body)
      × IsSynced (write_body body true left w)
unfolding write_body
write_body-IsSynced body left w h = elim (Bool-cases (is_body w.last_body body)) [
  | inl same ↦
      let (f, p) : IsSyncedTo (some body) w.file w.pushed =
        subst (λ o. IsSyncedTo o w.file w.pushed) (is_body_sound w.last_body body same) h in
      rw same (f, p, h)
  | inr new ↦ rw new (refl, last_of-concat w.pushed body, (refl, last_of-concat w.pushed body))
]

-- While the writes succeed, skipping a body that is remembered loses nothing: after every call the
-- file holds the call's payload, and the payload is the last one that was pushed to the widget.
pub write_active_json-IsSynced :
    (to_string : Payload → Text) (disk : Disk) (snap : ActiveSnapshot) (menu : Option MenuItem)
    (source : MenuSource) (w : Writer)
    → disk.writes ≡ true
    → IsSynced w
    → ((write_active_json to_string disk snap menu source w).file
        ≡ some (to_string (payload_of snap menu source)))
      × (last_of (write_active_json to_string disk snap menu source w).pushed
          ≡ some (to_string (payload_of snap menu source)))
      × IsSynced (write_active_json to_string disk snap menu source w)
unfolding write_active_json
write_active_json-IsSynced to_string disk snap menu source w ok h =
    rw ok (write_body-IsSynced (to_string (payload_of snap menu source)) disk.left w h)

write_body-fresh :
    (body : Text) (writes : Bool) (left file : Option Text) (pushed : List Text)
    → IsSynced
        (write_body body writes left (record { last_body = none; file = file; pushed = pushed }))
unfolding write_body
write_body-fresh body true left file pushed = (refl, last_of-concat pushed body)
write_body-fresh body false left file pushed = tt

-- Where nothing is remembered, every outcome of a write is in sync.
pub write_active_json-fresh :
    (to_string : Payload → Text) (disk : Disk) (snap : ActiveSnapshot) (menu : Option MenuItem)
    (source : MenuSource) (file : Option Text) (pushed : List Text)
    → IsSynced (
        write_active_json to_string disk snap menu source
          (record { last_body = none; file = file; pushed = pushed }))
unfolding write_active_json
write_active_json-fresh to_string disk snap menu source =
    write_body-fresh (to_string (payload_of snap menu source)) disk.writes disk.left

write_body-last_body :
    (a : Text) (left : Option Text) (w : Writer) → (write_body a true left w).last_body ≡ some a
unfolding write_body
write_body-last_body a left w = elim (Bool-cases (is_body w.last_body a)) [
  | inl same ↦ rw same (is_body_sound w.last_body a same)
  | inr new ↦ rw new refl
]

stale_from :
    (a b : Text) (left left' : Option Text) (writes : Bool) (w : Writer)
    → a ≢ b
    → w.last_body ≡ some a
    → ((write_body a writes left (write_body b false left' w)).file ≡ left')
      × (last_of (write_body a writes left (write_body b false left' w)).pushed ≡ some b)
unfolding write_body
stale_from a b left left' writes w n e =
    ground (arith, text_eq_iff a b, text_eq_refl a, last_of-concat w.pushed b)

-- After a payload was written, another one failed to be written, and the first is published again,
-- the file is as the failed write left it, and the widget still has the other payload: the third
-- call is skipped, since the failed write did not change what is remembered.
pub write_body-stale :
    (a b : Text) (left left' left'' : Option Text) (writes : Bool) (w : Writer)
    → a ≢ b
    → ((write_body a writes left'' (write_body b false left' (write_body a true left w))).file
        ≡ left')
      × (last_of
            (write_body a writes left''
              (write_body b false left' (write_body a true left w))).pushed
          ≡ some b)
write_body-stale a b left left' left'' writes w n =
    stale_from a b left'' left' writes (write_body a true left w) n (write_body-last_body a left w)
