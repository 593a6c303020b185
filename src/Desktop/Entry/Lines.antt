-- ===== src/Desktop/Entry/Lines.antt =====
-- The lines of a printed file, and the groups that `parse_entry` makes of them.
use noctalia_appmenu.Prelude.{
  ◌==◌, ◌≡◌, refl, sym, ap, ◌∙◌, false, List, [], ◌∷◌, ◌++◌, map, none, some, All, All-append,
  is_empty, contains_char, is_whitespace, starts_with, strip_prefix, Text, codes,
}
use mathlib.Core.List.{append_assoc, append-nil}
use noctalia_appmenu.Prelude.Map.{empty_map}
use noctalia_appmenu.Prelude.Str.Bare.{trim-IsBare, IsBare-append, strip_suffix-append}
use noctalia_appmenu.Prelude.Str.Split.Laws.{split_once-append, contains_char-append, IsLine}
use noctalia_appmenu.Desktop.Entry.{Keys, Group, header_of, or_insert, add_key, add_line, add_lines}
use noctalia_appmenu.Desktop.Entry.Print.{Block, key_line, header_line, all_lines}

-- A line that starts with the text is neither empty, nor a comment, nor a header.
abbrev StartsLikeKey : Text → Type 0
StartsLikeKey [] = ⊥
StartsLikeKey (c ∷ s) = ((b'#' == c) ≡ false) × ((b'[' == c) ≡ false)

abbrev pub IsKey : Text → Type 0
IsKey key = IsLine key × (contains_char b'=' key ≡ false) × StartsLikeKey key

abbrev pub IsPair : Text × Text → Type 0
IsPair (key, value) = IsKey key × IsLine value

pub key_line-IsLine : (kv : Text × Text) → IsPair kv → IsLine (key_line kv)
unfolding is_whitespace
key_line-IsLine (key, value) (k, v) = (
  contains_char-append b'\n' key (b'=' ∷ value) k.0.0 v.0,
  IsBare-append key value b'=' refl k.0.1.0 v.1,
)

pub header_line-IsLine : (h : Text) → contains_char b'\n' h ≡ false → IsLine (header_line h)
unfolding is_whitespace
header_line-IsLine h n = (
  contains_char-append b'\n' h (codes "]") n refl,
  IsBare-append (b'[' ∷ h) [] b']' refl refl (tt, tt),
)

pub header_of-header_line : (h : Text) → header_of (header_line h) ≡ some h
unfolding header_of strip_prefix
header_of-header_line h = rw (strip_suffix-append h (codes "]")) refl

-- what a header line and a key line add
add_line-header :
    (gs : List Group) (h : Text)
    → contains_char b'\n' h ≡ false
    → add_line gs (header_line h) ≡ gs ++ (h, empty_map) ∷ []
unfolding add_line header_of starts_with strip_prefix
add_line-header gs h n =
    rw (trim-IsBare (header_line h) (header_line-IsLine h n).1, strip_suffix-append h (codes "]"))
      refl

pub reads_as_key :
    (key value : Text)
    → StartsLikeKey key
    → (is_empty (key_line (key, value)) ≡ false)
      × (starts_with (codes "#") (key_line (key, value)) ≡ false)
      × (header_of (key_line (key, value)) ≡ none)
unfolding starts_with strip_prefix header_of
reads_as_key [] value h = absurd h
reads_as_key (c ∷ key) value (h, k) = (refl, rw (h, starts_with) refl, rw (k, header_of) refl)

add_line-key :
    (gs : List Group) (key value : Text)
    → IsPair (key, value)
    → add_line gs (key_line (key, value)) ≡ add_key key value gs
unfolding add_line
add_line-key gs key value (k, v) =
    let bare = trim-IsBare (key_line (key, value)) (key_line-IsLine (key, value) (k, v)).1 in
    let (named, no_comment, no_header) = reads_as_key key value k.2 in
    rw
      (
        bare,
        named,
        no_comment,
        no_header,
        bare,
        split_once-append b'=' key value k.1,
        trim-IsBare key k.0.1,
        trim-IsBare value v.1,
      )
      refl

add_key-last :
    (key value : Text) (gs : List Group) (g : Group)
    → add_key key value (gs ++ g ∷ []) ≡ gs ++ (g.0, or_insert key value g.1) ∷ []
unfolding add_key
add_key-last key value [] g = refl
add_key-last key value (h ∷ []) g = refl
add_key-last key value (h ∷ k ∷ gs) g = ap (◌∷◌ h) (add_key-last key value (k ∷ gs) g)

-- The keys of a group.
unfoldable pub keys_from : Keys → List (Text × Text) → Keys
keys_from m [] = m
keys_from m (kv ∷ kvs) = keys_from (or_insert kv.0 kv.1 m) kvs

abbrev pub group_of : Block → Group
group_of b = (b.0, keys_from empty_map b.1)

add_lines-keys :
    (gs : List Group) (g : Group) (kvs : List (Text × Text)) (rest : List Text)
    → All IsPair kvs
    → add_lines (gs ++ g ∷ []) (map key_line kvs ++ rest)
      ≡ add_lines (gs ++ (g.0, keys_from g.1 kvs) ∷ []) rest
unfolding add_lines keys_from
add_lines-keys gs g [] rest h = refl
add_lines-keys gs g (kv ∷ kvs) rest (h, hs) =
    ap (λ x. add_lines x (map key_line kvs ++ rest))
      (add_line-key (gs ++ g ∷ []) kv.0 kv.1 h ∙ add_key-last kv.0 kv.1 gs g)
    ∙ (add_lines-keys gs (g.0, or_insert kv.0 kv.1 g.1) kvs rest hs)

abbrev pub IsBlock : Block → Type 0
IsBlock b = (contains_char b'\n' b.0 ≡ false) × All IsPair b.1

pub add_lines-all_lines :
    (gs : List Group) (bs : List Block)
    → All IsBlock bs
    → add_lines gs (all_lines bs) ≡ gs ++ map group_of bs
unfolding add_lines
add_lines-all_lines gs [] h = sym (append-nil gs)
add_lines-all_lines gs ((h, kvs) ∷ bs) ((n, ks), hs) =
    ap (λ x. add_lines x (map key_line kvs ++ all_lines bs)) (add_line-header gs h n)
    ∙ add_lines-keys gs (h, empty_map) kvs (all_lines bs) ks
    ∙ add_lines-all_lines (gs ++ group_of (h, kvs) ∷ []) bs hs
    ∙ (append_assoc gs (group_of (h, kvs) ∷ []) (map group_of bs))

key_lines-IsLine : (kvs : List (Text × Text)) → All IsPair kvs → All IsLine (map key_line kvs)
key_lines-IsLine [] h = tt
key_lines-IsLine (kv ∷ kvs) (h, hs) = (key_line-IsLine kv h, key_lines-IsLine kvs hs)

pub all_lines-IsLine : (bs : List Block) → All IsBlock bs → All IsLine (all_lines bs)
all_lines-IsLine [] h = tt
all_lines-IsLine ((h, kvs) ∷ bs) ((n, ks), hs) = (
  header_line-IsLine h n,
  All-append IsLine (map key_line kvs) (all_lines bs) (key_lines-IsLine kvs ks)
      (all_lines-IsLine bs hs),
)

pub Type-IsKey : IsKey (codes "Type")
unfolding is_whitespace
Type-IsKey = ((refl, (refl, refl)), refl, (refl, refl))

pub Name-IsKey : IsKey (codes "Name")
unfolding is_whitespace
Name-IsKey = ((refl, (refl, refl)), refl, (refl, refl))

pub Exec-IsKey : IsKey (codes "Exec")
unfolding is_whitespace
Exec-IsKey = ((refl, (refl, refl)), refl, (refl, refl))

pub Icon-IsKey : IsKey (codes "Icon")
unfolding is_whitespace
Icon-IsKey = ((refl, (refl, refl)), refl, (refl, refl))

pub Actions-IsKey : IsKey (codes "Actions")
unfolding is_whitespace
Actions-IsKey = ((refl, (refl, refl)), refl, (refl, refl))

pub StartupWMClass-IsKey : IsKey (codes "StartupWMClass")
unfolding is_whitespace
StartupWMClass-IsKey = ((refl, (refl, refl)), refl, (refl, refl))
