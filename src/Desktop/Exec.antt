-- ===== src/Desktop/Exec.antt =====
-- `exec_to_argv`: an `Exec` value as an argument vector, its field codes dropped.
pub mod RoundTrip
use noctalia_appmenu.Prelude.{
  ℕ, ◌==◌, Bool, true, false, not, ◌&&◌, ◌||◌, List, [], ◌∷◌, ◌++◌, if◌then◌else◌, is_empty, retain,
  Text,
}

pub record Lexer : Type 0 where
  pub args : List Text
  pub cur : Text
  pub have_token : Bool
  pub in_quote : Bool

abbrev pub fresh : Lexer
fresh = record { args = []; cur = []; have_token = false; in_quote = false }

-- `matches!(next, '"' | '`' | '$' | '\\')`
abbrev pub is_reserved : ℕ → Bool
is_reserved c = c == b'"' || (c == b'`' || (c == b'$' || c == b'\\'))

-- Whether the arm of `c` takes the next character too.
abbrev pub takes_two : Lexer → ℕ → ℕ → Bool
takes_two s c d = c == b'%' || (c == b'\\' && (s.in_quote && is_reserved d))

-- The arm of a character that takes the next one: a field code, or an escape inside quotes.
unfoldable pub take_two : Lexer → ℕ → ℕ → Lexer
take_two s c d =
    if c == b'%'
    then (if d == b'%' then record s { cur = s.cur ++ d ∷ []; have_token = true } else s)
    else record s { cur = s.cur ++ d ∷ [] }

-- The arm of a character that stands alone.
unfoldable pub take_one : Lexer → ℕ → Lexer
take_one s c =
    if c == b'"'
    then record s { in_quote = not s.in_quote; have_token = true }
    else if c == b'\\' && s.in_quote
    then record s { cur = s.cur ++ c ∷ [] }
    else if c == b'%'
    then s
    else if (c == b' ' || c == b'\t') && not s.in_quote
    then (if s.have_token
        then record s { args = s.args ++ s.cur ∷ []; cur = []; have_token = false }
        else s)
    else record s { cur = s.cur ++ c ∷ []; have_token = true }

unfoldable pub tokenise : Lexer → Text → Lexer
tokenise s [] = s
tokenise s (c ∷ []) = take_one s c
tokenise s (c ∷ d ∷ rest) =
    let both = tokenise (take_two s c d) rest in
    let one = tokenise (take_one s c) (d ∷ rest) in if takes_two s c d then both else one

-- the token that the end of the value closes
unfoldable pub finish : Lexer → List Text
finish s = if s.have_token then s.args ++ s.cur ∷ [] else s.args

unfoldable pub exec_to_argv : Text → List Text
exec_to_argv exec = retain (λ a. not (is_empty a)) (finish (tokenise fresh exec))
