-- ===== src/Atspi/UnitTests.antt =====
-- The unit tests of bridge/src/atspi.rs on names, labels and the times of the learned skips.
use noctalia_appmenu.Prelude.{
  ◌≡◌, refl, true, false, [], ◌∷◌, all, contains, starts_with, strip_prefix, byte_len, text_eq,
  trim, is_whitespace, codes, ascii, Text, from_secs, from_millis, Bool,
}
use noctalia_appmenu.Prelude.Str.Split.{rsplit_once}
use noctalia_appmenu.Menu.Synthetic.{pretty_app_label}
use noctalia_appmenu.Atspi.Matching.{normalize_app_id, fuzzy_app_match}
use noctalia_appmenu.Atspi.Skip.{classify_expensive, skip_decision, ttl_for}

abbrev normalizes : Text × Text → Bool
normalizes (s, t) = text_eq (normalize_app_id ascii s) t

normalize_app_id_strips_reverse_dns :
    all normalizes (
      (codes "org.kde.kate", codes "kate")
      ∷ (codes "org.kde.dolphin", codes "dolphin")
      ∷ (codes "Dolphin", codes "dolphin")
      ∷ (codes "  Kate  ", codes "kate")
      ∷ (codes "anki.bin", codes "anki.bin")
      ∷ (codes "foo.bar", codes "foo.bar")
      ∷ (codes "a.b.c", codes "c")
      ∷ [])
    ≡ true
unfolding normalize_app_id trim is_whitespace text_eq rsplit_once
normalize_app_id_strips_reverse_dns = refl

fuzzy_app_match_pairings :
    (fuzzy_app_match (codes "anki") (codes "anki.bin") ≡ true)
    × (fuzzy_app_match (codes "anki.bin") (codes "anki") ≡ true)
    × (fuzzy_app_match (codes "qt") (codes "qtcreator") ≡ false)
    × (fuzzy_app_match [] (codes "okular") ≡ false)
    × (fuzzy_app_match (codes "firefox") (codes "chromium") ≡ false)
unfolding fuzzy_app_match byte_len contains starts_with strip_prefix
fuzzy_app_match_pairings = (refl, refl, refl, refl, refl)

pretty_app_labels :
    (pretty_app_label ascii (codes "com.mitchellh.ghostty") ≡ codes "Ghostty")
    × (pretty_app_label ascii (codes "firefox-nightly") ≡ codes "Firefox-nightly")
    × (pretty_app_label ascii (codes "   ") ≡ codes "App")
unfolding pretty_app_label trim is_whitespace rsplit_once
pretty_app_labels = (refl, refl, refl)

expensive_verdict_is_bounded_not_permanent :
    (classify_expensive (from_millis 750) ≡ true)
    × (classify_expensive (from_millis 749) ≡ false)
    × (skip_decision true false (from_secs 1799) ≡ true)
    × (skip_decision true false (from_secs 1800) ≡ false)
    × (skip_decision true true (from_secs 5) ≡ true)
    × (skip_decision true true (from_secs 30) ≡ false)
    × (skip_decision false false (from_secs 300) ≡ false)
unfolding classify_expensive skip_decision ttl_for
expensive_verdict_is_bounded_not_permanent = (refl, refl, refl, refl, refl, refl, refl)
