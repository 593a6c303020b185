-- ===== src/Desktop/Entry/Displayable.antt =====
-- A printed entry is displayable: no line of it hides it.
use noctalia_appmenu.Prelude.{
  ◌≡◌, refl, true, false, List, [], ◌∷◌, ◌++◌, map, Option, none, some, arith, All, text_eq, Text,
  codes,
}
use noctalia_appmenu.Prelude.Str.Bare.{trim-IsBare}
use noctalia_appmenu.Prelude.Str.Split.Laws.{lines-join_with}
use noctalia_appmenu.Desktop.Entry.{
  DesktopAction, DesktopEntry, Flags, flag_line, flag_lines, is_displayable,
}
use noctalia_appmenu.Desktop.Entry.Print.{
  Block, key_line, header_line, all_lines, action_block, class_key, blocks, print, IsPrintable,
}
use noctalia_appmenu.Desktop.Entry.Lines.{
  IsPair, IsBlock, key_line-IsLine, header_line-IsLine, header_of-header_line, reads_as_key,
  all_lines-IsLine,
}
use noctalia_appmenu.Desktop.Entry.RoundTrip.{blocks-IsBlock}

abbrev IsClean : Flags → Type 0
IsClean f = (f.no_display ≡ false) × (f.hidden ≡ false)

-- A key whose lines are neither of the two that hide an entry.
abbrev IsQuiet : Text × Text → Type 0
IsQuiet kv =
    (text_eq (key_line kv) (codes "NoDisplay=true") ≡ false)
    × (text_eq (key_line kv) (codes "Hidden=true") ≡ false)

flag_line-header :
    (f : Flags) (h : Text) → IsBlock (h, []) → IsClean f → IsClean (flag_line f (header_line h))
unfolding flag_line
flag_line-header f h (n, _) clean =
    rw (flag_line, trim-IsBare (header_line h) (header_line-IsLine h n).1, header_of-header_line h)
      clean

flag_line-key :
    (f : Flags) (kv : Text × Text)
    → IsPair kv
    → IsQuiet kv
    → IsClean f
    → IsClean (flag_line f (key_line kv))
unfolding flag_line
flag_line-key f kv ok quiet clean =
    ground (
      arith,
      trim-IsBare (key_line kv) (key_line-IsLine kv ok).1,
      (reads_as_key kv.0 kv.1 ok.0.2).2,
    )

flag_lines-keys :
    (f : Flags) (kvs : List (Text × Text)) (rest : List Text)
    → All IsPair kvs
    → All IsQuiet kvs
    → IsClean f
    → ((g : Flags) → IsClean g → IsClean (flag_lines g rest))
    → IsClean (flag_lines f (map key_line kvs ++ rest))
unfolding flag_lines
flag_lines-keys f [] rest h q clean k = k f clean
flag_lines-keys f (kv ∷ kvs) rest (h, hs) (q, qs) clean k =
    flag_lines-keys (flag_line f (key_line kv)) kvs rest hs qs (flag_line-key f kv h q clean) k

flag_lines-IsClean :
    (bs : List Block) (f : Flags)
    → All IsBlock bs
    → All (λ b. All IsQuiet b.1) bs
    → IsClean f
    → IsClean (flag_lines f (all_lines bs))
unfolding flag_lines
flag_lines-IsClean [] f h q clean = clean
flag_lines-IsClean ((h, kvs) ∷ bs) f ((n, ks), hs) (q, qs) clean =
    flag_lines-keys (flag_line f (header_line h)) kvs (all_lines bs) ks q
      (flag_line-header f h (n, tt) clean) (λ g c. flag_lines-IsClean bs g hs qs c)

class_key-IsQuiet : (w : Option Text) → All IsQuiet (class_key w)
unfolding text_eq
class_key-IsQuiet none = tt
class_key-IsQuiet (some w) = ((refl, refl), tt)

actions-IsQuiet :
    (actions : List DesktopAction) → All (λ b. All IsQuiet b.1) (map action_block actions)
unfolding text_eq
actions-IsQuiet [] = tt
actions-IsQuiet (a ∷ rest) =
    (((refl, refl), ((refl, refl), ((refl, refl), tt))), actions-IsQuiet rest)

blocks-IsQuiet : (e : DesktopEntry) → All (λ b. All IsQuiet b.1) (blocks e)
unfolding text_eq
blocks-IsQuiet e = (
  (
    (refl, refl),
    (
      (refl, refl),
      ((refl, refl), ((refl, refl), ((refl, refl), class_key-IsQuiet e.startup_wm_class))),
    ),
  ),
  actions-IsQuiet e.actions,
)

pub is_displayable-print : (e : DesktopEntry) → IsPrintable e → is_displayable (print e) ≡ true
unfolding is_displayable print
is_displayable-print e h =
    let ok = blocks-IsBlock e h in
    let start : Flags = record { in_entry = false; no_display = false; hidden = false } in
    let clean = flag_lines-IsClean (blocks e) start ok (blocks-IsQuiet e) (refl, refl) in
    rw (lines-join_with (all_lines (blocks e)) (all_lines-IsLine (blocks e) ok), clean.0, clean.1)
      refl
