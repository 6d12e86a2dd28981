-- ===== src/Imapsync/Shlex.antt =====
-- `shlex.split` of Python, which services/imapsync_flags.py calls: POSIX mode, words split at white
-- space, no comments.
use Prim.Native.Char.{Char, code}
use Prim.Native.String.{◌++◌}
use mail_sync_portal.Base.{
  ◌≡◌, refl, String, Bool, true, false, not, Option, none, some, List, [], ◌∷◌, ◌&&◌, ◌||◌, ◌==◌,
  str_eq, any, if◌then◌else◌,
}
use mathlib.Core.Option

pub data CharKind : Type 0 where
  space quote escape other : CharKind

kind : Char → CharKind
kind c =
    if any (λ n. code c == n) (32 ∷ 9 ∷ 13 ∷ 10 ∷ [])
    then space
    else if code c == b'"' || code c == 39
    then quote
    else if code c == b'\\'
    then escape
    else other

-- `word` is the state 'a'; a quote keeps its character; after an escape comes the state in which it
-- stood: a word, or the double quote.
pub data LexState : Type 0 where
  between word escaped escaped_in_quote : LexState
  quoted : Char → LexState

emit : String → Bool → Option (List String) → Option (List String)
emit token was_quoted rest =
    if str_eq token "" && not was_quoted then rest else Option.map (λ l. token ∷ l) rest

add : String → Char → String
add token c = token ++ String.◌∷◌ c ""

-- `none` is the ValueError: no closing quotation, no escaped character.
lex : LexState → String → Bool → String → Option (List String)
unfolding kind emit add any
lex between token q String.[] = some []
lex word token q String.[] = emit token q (some [])
lex (quoted d) token q String.[] = none
lex escaped token q String.[] = none
lex escaped_in_quote token q String.[] = none
lex between token q (String.◌∷◌ c s) = elim (kind c) [
  | space ↦ lex between "" false s
  | quote ↦ lex (quoted c) "" true s
  | escape ↦ lex escaped "" false s
  | other ↦ lex word (add "" c) false s
]
lex word token q (String.◌∷◌ c s) = elim (kind c) [
  | space ↦ emit token q (lex between "" false s)
  | quote ↦ lex (quoted c) token true s
  | escape ↦ lex escaped token q s
  | other ↦ lex word (add token c) q s
]
lex (quoted d) token q (String.◌∷◌ c s) = elim (code c == code d) [
  | true ↦ lex word token q s
  | false ↦ elim (code c == b'\\' && code d == b'"') [
    | true ↦ lex escaped_in_quote token q s
    | false ↦ lex (quoted d) (add token c) q s
  ]
]
lex escaped token q (String.◌∷◌ c s) = lex word (add token c) q s
lex escaped_in_quote token q (String.◌∷◌ c s) = elim (code c == b'\\' || code c == b'"') [
  | true ↦ lex (quoted "\"") (add token c) q s
  | false ↦ lex (quoted "\"") (add (token ++ "\\") c) q s
]

unfoldable pub split : String → Option (List String)
unfolding lex
split text = lex between "" false text

split_samples :
    (split "--exclude '^Spam$'  --addheader" ≡ some ("--exclude" ∷ "^Spam$" ∷ "--addheader" ∷ []))
    × (split "a\"b c\"d '' e\\ f" ≡ some ("ab cd" ∷ "" ∷ "e f" ∷ []))
    × (split "--folder \"INBOX" ≡ none)
unfolding split
split_samples = (refl, refl, refl)
