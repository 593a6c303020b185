-- ===== src/Atspi/App/Laws.antt =====
-- Which application a focused window is given: its own process's, or one whose name is the hint's.
use noctalia_appmenu.Prelude.{
  ℕ, zero, suc, ◌==◌, All, ◌≡◌, refl, ◌⊎◌, inl, inr, Bool, true, List, [], ◌∷◌, ◌++◌, map, Option,
  none, some, arith, find, is_empty, Bool-cases, Option-cases, Text, Unicode,
}
use mathlib.Core.Path.{subst}
use noctalia_appmenu.Atspi.World.{ok, Ref, World, rounds, child_refs}
use noctalia_appmenu.Atspi.Matching.{normalize_app_id, fuzzy_app_match, choose_frame}
use noctalia_appmenu.Atspi.App.{
  Bus, registry, resolve_focused_frame, Scan, matched, unmatched, scan_pids, corroborates,
  active_candidate, find_active_app_via_state, find_by_hint, after_scan, find_app_for_pid,
  scan_for_active_frame,
}

-- The accessible is a child of the registry's root: an application.
abbrev pub IsRegistered : World → Ref → Type 0
IsRegistered w c = (i : ℕ) × (w.get_child_at_index registry i ≡ some c)

-- A registered application whose accessible name fuzzily matches the hint, on the given connection.
abbrev pub Corroborated : Unicode → World → Text → Text → Type 0
Corroborated u w hint service =
    (c : Ref) × IsRegistered w c
    × (c.service ≡ service)
    × ((name : Text) × (w.read_name c ≡ some name)
        × (fuzzy_app_match (normalize_app_id u hint) (normalize_app_id u name) ≡ true))

corroborates_sound :
    (u : Unicode) (w : World) (hint : Text) (c : Ref)
    → IsRegistered w c
    → corroborates u w (normalize_app_id u hint) c ≡ true
    → Corroborated u w hint c.service
corroborates_sound u w hint c k h = elim (Option-cases (w.read_name c)) [
  | inl e ↦ absurd (ground arith)
  | inr (name, e) ↦ (c, k, refl, (name, e, ground arith))
]

active_candidate-Corroborated :
    (u : Unicode) (w : World) (hint : Text) (cs : List Ref) (r : Ref)
    → All (IsRegistered w) cs
    → active_candidate u w (normalize_app_id u hint) cs ≡ some r
    → Corroborated u w hint r.service
unfolding active_candidate
active_candidate-Corroborated u w hint [] r ks e = absurd (ground arith)
active_candidate-Corroborated u w hint (c ∷ cs) r (k, ks) e =
    elim (Option-cases (scan_for_active_frame w c 2)) [
      | inl q ↦ active_candidate-Corroborated u w hint cs r ks (rw (q, active_candidate) at e)
      | inr (path, q) ↦ elim (Bool-cases (corroborates u w (normalize_app_id u hint) c)) [
        | inl h ↦
            let same : c.service ≡ r.service = ground arith in
            rw (← same) (corroborates_sound u w hint c k h)
        | inr h ↦ active_candidate-Corroborated u w hint cs r ks (ground arith)
      ]
    ]

find_sound {ℓ} : {A : Type ℓ} (p : A → Bool) (xs : List A) (x : A) → find p xs ≡ some x → p x ≡ true
unfolding find
find_sound p [] x e = absurd (ground arith)
find_sound p (y ∷ ys) x e = elim (Bool-cases (p y)) [
  | inl h ↦ ground arith
  | inr h ↦ find_sound p ys x (ground arith)
]

find_All {ℓ} :
    {A : Type ℓ} (P : A → Type 0) (p : A → Bool) (xs : List A) (x : A)
    → All P xs
    → find p xs ≡ some x
    → P x
unfolding find
find_All P p [] x h e = absurd (cc)
find_All P p (y ∷ ys) x (h, hs) e = elim (Bool-cases (p y)) [
  | inl q ↦ let same : y ≡ x = ground (arith, q, e) in subst P same h
  | inr q ↦ find_All P p ys x hs (rw q at e)
]

find_by_hint-Corroborated :
    (u : Unicode) (w : World) (cs : List Ref) (hint : Text) (r : Ref)
    → All (IsRegistered w) cs
    → find_by_hint u w cs (some hint) ≡ some r
    → Corroborated u w hint r.service
unfolding find_by_hint find_active_app_via_state
find_by_hint-Corroborated u w cs hint r ks e =
    elim (Option-cases (active_candidate u w (normalize_app_id u hint) cs)) [
      | inl q ↦
          let test = corroborates u w (normalize_app_id u hint) in
          let found : find test cs ≡ some r = ground arith in
          corroborates_sound u w hint r (find_All (IsRegistered w) test cs r ks found)
            (find_sound test cs r found)
      | inr (x, q) ↦ elim (Bool-cases (is_empty (normalize_app_id u hint))) [
        | inl h ↦ absurd (ground arith)
        | inr h ↦ active_candidate-Corroborated u w hint cs r ks (ground arith)
      ]
    ]

resolve_focused_frame-service :
    (w : World) (app r : Ref) (title : Option Text)
    → resolve_focused_frame w app title ≡ some r
    → r.service ≡ app.service
unfolding resolve_focused_frame choose_frame
resolve_focused_frame-service w app r title e = ground arith

scan_pids-matched :
    (bus : Bus) (pid : ℕ) (candidates cs : List Ref) (c : Ref)
    → scan_pids bus pid candidates cs ≡ matched c
    → bus.process_id c.service ≡ some pid
unfolding scan_pids
scan_pids-matched bus pid candidates [] c e = absurd (ground arith)
scan_pids-matched bus pid candidates (d ∷ cs) c e = ground (
  arith,
  scan_pids-matched bus pid candidates cs c,
  scan_pids-matched bus pid (candidates ++ d ∷ []) cs c,
)

All-snoc {ℓ} :
    {A : Type ℓ} (P : A → Type 0) (xs : List A) (x : A) → All P xs → P x → All P (xs ++ x ∷ [])
All-snoc P [] x hs h = (h, tt)
All-snoc P (y ∷ ys) x (k, ks) h = (k, All-snoc P ys x ks h)

scan_pids-unmatched :
    (bus : Bus) (P : Ref → Type 0) (pid : ℕ) (candidates cs left : List Ref)
    → All P candidates
    → All P cs
    → scan_pids bus pid candidates cs ≡ unmatched left
    → All P left
unfolding scan_pids
scan_pids-unmatched bus P pid candidates [] left ks hs e =
    let same : candidates ≡ left = ground arith in subst (All P) same ks
scan_pids-unmatched bus P pid candidates (c ∷ cs) left ks (h, hs) e =
    elim (Option-cases (bus.process_id c.service)) [
      | inl q ↦ scan_pids-unmatched bus P pid candidates cs left ks hs (rw (q, scan_pids) at e)
      | inr (p, q) ↦ elim (Bool-cases (p == pid)) [
        | inl m ↦ absurd (ground arith)
        | inr m ↦
            scan_pids-unmatched bus P pid (candidates ++ c ∷ []) cs left
              (All-snoc P candidates c ks h) hs (ground arith)
      ]
    ]

child_refs-IsRegistered :
    (w : World) (i n : ℕ) → All (IsRegistered w) (map (λ c. c.1) (child_refs w registry i n))
unfolding child_refs
child_refs-IsRegistered w i zero = tt
child_refs-IsRegistered w i (suc n) = elim (Option-cases (w.get_child_at_index registry i)) [
  | inl e ↦ rw (e, child_refs) (child_refs-IsRegistered w (suc i) n)
  | inr (c, e) ↦ rw (e, child_refs) ((i, e), child_refs-IsRegistered w (suc i) n)
]

find_by_hint-none : (u : Unicode) (w : World) (cs : List Ref) → find_by_hint u w cs none ≡ none
unfolding find_by_hint
find_by_hint-none u w cs = refl

after_scan-owner :
    (u : Unicode) (bus : Bus) (pid : ℕ) (hint title : Option Text) (cs : List Ref) (r : Ref)
    → All (IsRegistered bus.world) cs
    → after_scan u bus.world hint title (scan_pids bus pid [] cs) ≡ some r
    → (bus.process_id r.service ≡ some pid)
      ⊎ ((h : Text) × (hint ≡ some h) × Corroborated u bus.world h r.service)
unfolding after_scan
after_scan-owner u bus pid hint title cs r ks e = split (scan_pids bus pid [] cs) refl e hint refl
  where
    split :
        (s : Scan)
        → scan_pids bus pid [] cs ≡ s
        → after_scan u bus.world hint title s ≡ some r
        → (k : Option Text) → hint ≡ k
        → (bus.process_id r.service ≡ some pid)
          ⊎ ((h : Text) × (hint ≡ some h) × Corroborated u bus.world h r.service)
    split (matched c) q a k l = inl (
        rw (resolve_focused_frame-service bus.world c r title a)
          (scan_pids-matched bus pid [] cs c q))
    split (unmatched left) q a none l = absurd (cc (find_by_hint-none u bus.world left, rw l at a))
    split (unmatched left) q a (some h) l = inr (
      h,
      l,
      find_by_hint-Corroborated u bus.world left h r
          (scan_pids-unmatched bus (IsRegistered bus.world) pid [] cs left tt ks q) (rw l at a),
    )

-- An accessible that is returned for a process lives on a connection of that very process, or on
-- the connection of an application whose name fuzzily matches the focused window's app-id.
pub find_app_for_pid-owner :
    (u : Unicode) (bus : Bus) (pid : ℕ) (hint title : Option Text) (r : Ref)
    → find_app_for_pid u bus pid hint title ≡ ok (some r)
    → (bus.process_id r.service ≡ some pid)
      ⊎ ((h : Text) × (hint ≡ some h) × Corroborated u bus.world h r.service)
unfolding find_app_for_pid
find_app_for_pid-owner u bus pid hint title r e =
    elim (Option-cases (bus.world.read_child_count registry)) [
      | inl q ↦ absurd (ground arith)
      | inr (n, q) ↦
          after_scan-owner u bus pid hint title
            (map (λ c. c.1) (child_refs bus.world registry 0 (rounds n))) r
            (child_refs-IsRegistered bus.world 0 (rounds n)) (ground arith)
    ]
