-- ===== src/Desktop/Exec/RoundTrip.antt =====
-- A quoted argument vector is read back, and field codes leave no trace.
use noctalia_appmenu.Prelude.{
  ℕ, ◌==◌, ◌≡◌, refl, sym, ap, ◌∙◌, ◌≢◌, inl, inr, true, false, not, ◌&&◌, List, [], ◌∷◌, ◌++◌,
  if◌then◌else◌, arith, All, is_empty, retain, Bool-cases, Text,
}
use mathlib.Core.List.{append_assoc, append-nil}
use noctalia_appmenu.Desktop.Exec.{
  Lexer, is_reserved, take_two, take_one, tokenise, finish, exec_to_argv,
}

-- A character inside quotes, as the freedesktop specification writes it.
unfoldable pub escape_char : ℕ → Text
escape_char c =
    if is_reserved c then b'\\' ∷ c ∷ [] else if c == b'%' then b'%' ∷ b'%' ∷ [] else c ∷ []

unfoldable pub escape : Text → Text
escape [] = []
escape (c ∷ s) = escape_char c ++ escape s

-- What an `Exec` value is made of: quoted arguments, and field codes.
pub data Word : Type 0 where
  arg : Text → Word
  field_code : ℕ → Word

unfoldable pub word : Word → Text
word (arg a) = b'"' ∷ (escape a ++ b'"' ∷ [])
word (field_code c) = b'%' ∷ c ∷ []

-- The words, with a space between two.
unfoldable pub render : List Word → Text
render [] = []
render (w ∷ []) = word w
render (w ∷ v ∷ ws) = word w ++ b' ' ∷ render (v ∷ ws)

abbrev pub args_of : List Word → List Text
args_of [] = []
args_of (arg a ∷ ws) = a ∷ args_of ws
args_of (field_code c ∷ ws) = args_of ws

-- An argument is not empty, and a field code is not the escaped percent sign.
abbrev pub IsProper : Word → Type 0
IsProper (arg a) = a ≢ []
IsProper (field_code c) = c ≢ b'%'

tokenise-take_one :
    (s : Lexer) (c : ℕ) (rest : Text)
    → (c == b'%') ≡ false
    → ((c == b'\\') && s.in_quote) ≡ false
    → tokenise s (c ∷ rest) ≡ tokenise (take_one s c) rest
unfolding tokenise
tokenise-take_one s c [] h k = refl
tokenise-take_one s c (d ∷ rest) h k = ground arith

-- Inside quotes.
abbrev quoted : List Text → Text → Lexer
quoted args cur = record { args = args; cur = cur; have_token = true; in_quote = true }

tokenise-escape_char :
    (args : List Text) (cur : Text) (c : ℕ) (rest : Text)
    → tokenise (quoted args cur) (escape_char c ++ rest)
      ≡ tokenise (quoted args (cur ++ c ∷ [])) rest
unfolding escape_char
tokenise-escape_char args cur c rest = elim (Bool-cases (is_reserved c)) [
  | inl h ↦ rw h (unfold tokenise take_two in ground arith)
  | inr h ↦ elim (Bool-cases (c == b'%')) [
    | inl k ↦ rw (h, k) (unfold tokenise take_two in ground arith)
    | inr k ↦
        rw (h, k)
          (tokenise-take_one (quoted args cur) c rest k (ground arith)
            ∙ ap (λ s. tokenise s rest) (unfold take_one in ground arith))
  ]
]

tokenise-escape :
    (args : List Text) (cur a rest : Text)
    → tokenise (quoted args cur) (escape a ++ rest) ≡ tokenise (quoted args (cur ++ a)) rest
unfolding escape
tokenise-escape args cur [] rest = rw append-nil refl
tokenise-escape args cur (c ∷ a) rest =
    rw
      (
        append_assoc (escape_char c) (escape a) rest,
        tokenise-escape_char args cur c (escape a ++ rest),
        tokenise-escape args (cur ++ c ∷ []) a rest,
        append_assoc cur (c ∷ []) a,
      )
      refl

-- Between words.
abbrev between : List Text → Lexer
between args = record { args = args; cur = []; have_token = false; in_quote = false }

-- After a closing quote.
abbrev closed : List Text → Text → Lexer
closed args cur = record { args = args; cur = cur; have_token = true; in_quote = false }

tokenise-arg :
    (args : List Text) (a rest : Text)
    → tokenise (between args) (word (arg a) ++ rest) ≡ tokenise (closed args a) rest
unfolding take_one word
tokenise-arg args a rest = rw (append_assoc (escape a) (b'"' ∷ []) rest) (
    tokenise-take_one (between args) b'"' (escape a ++ b'"' ∷ rest) refl refl
    ∙ tokenise-escape args [] a (b'"' ∷ rest)
    ∙ tokenise-take_one (quoted args a) b'"' rest refl refl)

tokenise-field_code :
    (args : List Text) (c : ℕ) (rest : Text)
    → c ≢ b'%'
    → tokenise (between args) (word (field_code c) ++ rest) ≡ tokenise (between args) rest
unfolding tokenise take_two take_one word
tokenise-field_code args c [] h = ground arith
tokenise-field_code args c (d ∷ rest) h = ground arith

-- A word and the space behind it.
tokenise-word :
    (args : List Text) (w : Word) (rest : Text)
    → IsProper w
    → tokenise (between args) (word w ++ b' ' ∷ rest)
      ≡ tokenise (between (args ++ args_of (w ∷ []))) rest
unfolding take_one
tokenise-word args (arg a) rest h =
    tokenise-arg args a (b' ' ∷ rest) ∙ tokenise-take_one (closed args a) b' ' rest refl refl
tokenise-word args (field_code c) rest h = rw append-nil (
    tokenise-field_code args c (b' ' ∷ rest) h
    ∙ tokenise-take_one (between args) b' ' rest refl refl)

-- The last word, which the end of the value closes.
finish-word :
    (args : List Text) (w : Word)
    → IsProper w
    → finish (tokenise (between args) (word w)) ≡ args ++ args_of (w ∷ [])
unfolding finish tokenise
finish-word args (arg a) h =
    ap (λ t. finish (tokenise (between args) t)) (sym (append-nil (word (arg a))))
    ∙ ap finish (tokenise-arg args a [])
finish-word args (field_code c) h =
    ap (λ t. finish (tokenise (between args) t)) (sym (append-nil (word (field_code c))))
    ∙ ap finish (tokenise-field_code args c [] h)
    ∙ sym (append-nil args)

args_of-cons : (w : Word) (ws : List Word) → args_of (w ∷ []) ++ args_of ws ≡ args_of (w ∷ ws)
args_of-cons (arg a) ws = refl
args_of-cons (field_code c) ws = refl

finish-render :
    (args : List Text) (ws : List Word)
    → All IsProper ws
    → finish (tokenise (between args) (render ws)) ≡ args ++ args_of ws
unfolding render
finish-render args [] h = rw append-nil (unfold tokenise finish in refl)
finish-render args (w ∷ []) (h, _) = finish-word args w h
finish-render args (w ∷ v ∷ ws) (h, hs) =
    ap finish (tokenise-word args w (render (v ∷ ws)) h)
    ∙ finish-render (args ++ args_of (w ∷ [])) (v ∷ ws) hs
    ∙ append_assoc args (args_of (w ∷ [])) (args_of (v ∷ ws))
    ∙ ap (◌++◌ args) (args_of-cons w (v ∷ ws))

retain-args_of :
    (ws : List Word) → All IsProper ws → retain (λ a. not (is_empty a)) (args_of ws) ≡ args_of ws
unfolding retain
retain-args_of [] h = refl
retain-args_of (arg [] ∷ ws) (h, hs) = absurd (h refl)
retain-args_of (arg (c ∷ a) ∷ ws) (h, hs) = ap (◌∷◌ (c ∷ a)) (retain-args_of ws hs)
retain-args_of (field_code c ∷ ws) (h, hs) = retain-args_of ws hs

-- Reading back an `Exec` value that was written with every argument quoted and escaped, and with
-- field codes among the words, gives exactly the arguments: a field code adds nothing, and no
-- character of an argument is lost, split or interpreted. (No argument is empty: the code drops
-- empty ones. No field code is `%%`, which stands for a percent sign.)
pub exec_to_argv-render : (ws : List Word) → All IsProper ws → exec_to_argv (render ws) ≡ args_of ws
unfolding exec_to_argv
exec_to_argv-render ws h = rw (finish-render [] ws h) (retain-args_of ws h)
