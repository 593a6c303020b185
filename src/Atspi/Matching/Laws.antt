-- ===== src/Atspi/Matching/Laws.antt =====
-- The fuzzy match is symmetric; the title match is equality of trimmed titles.
use noctalia_appmenu.Prelude.{
  ◌≡◌, refl, sym, ◌≢◌, ◌↔◌, inl, inr, true, [], arith, Bool-cases, byte_len, contains, trim, Text,
}
use noctalia_appmenu.Prelude.Str.Laws.{contains-eq_of_byte_len, contains_refl, text_eq_iff}
use noctalia_appmenu.Atspi.Matching.{fuzzy_app_match, title_matches}

contains_comm_of_byte_len : (s t : Text) → byte_len s ≡ byte_len t → contains s t ≡ contains t s
contains_comm_of_byte_len s t e = elim (Bool-cases (contains s t)) [
  | inl h ↦ let same = contains-eq_of_byte_len s t h e in rw (h, same) (sym (contains_refl t))
  | inr h ↦ elim (Bool-cases (contains t s)) [
    | inl k ↦
        let same = contains-eq_of_byte_len t s k (sym e) in
        absurd (cc (rw same at h, contains_refl t))
    | inr k ↦ rw (h, k) refl
  ]
]

-- Whether two normalised names match does not depend on which is the hint and which the name.
pub fuzzy_app_match_comm : (a b : Text) → fuzzy_app_match a b ≡ fuzzy_app_match b a
unfolding fuzzy_app_match
fuzzy_app_match_comm a b = ground (arith, contains_comm_of_byte_len a b)

-- A frame's name matches the focused title exactly when the two are equal after trimming, and
-- not empty.
pub title_matches_iff :
    (a b : Text) → (title_matches a b ≡ true) ↔ ((trim a ≡ trim b) × (trim a ≢ []))
unfolding title_matches
title_matches_iff a b = ground (arith, text_eq_iff (trim a) (trim b))
