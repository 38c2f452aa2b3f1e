-- ===== src/Tokenizer.antt =====
-- `tokenize` of standalone/src/value.cpp. The characters that are left stand for `pos`, and an
-- operation that reads takes them with the place of the first.
pub mod Places
pub mod Number
pub mod Append
pub mod Stable
pub mod Progress
pub mod Loop
pub mod Stops
pub mod Decides
pub mod Alike
pub mod Single
use re_poplan.Tokenizer.Places.{Place, Cursor, moved, digit, wordchar, span, missing, Lexeme}
use re_poplan.Tokenizer.Number.{number, closed}
use Prim.Native.String.{String}
use re_poplan.Prelude.{
  ℕ, zero, suc, ◌+◌, ◌/◌, ◌%◌, Bool, true, false, not, ◌&&◌, ◌||◌, List, [], ◌∷◌, ◌++◌, Option,
  none, some, leb, ◌==◌, if◌then◌else◌, length,
}
use re_poplan.Prelude.Int.{pos}
use re_poplan.Value.{Value, Result, ok, err, ◌>>=◌, need_input, throw, bytes}
use re_poplan.Utf8.{encode, encode_all, decode}
use re_poplan.Names.{canonical}
use re_poplan.State.{Text, text_eq, Token, TokenKind}

-- std::to_string of a number with no more than `fuel` digits
unfoldable pub decimal : ℕ → ℕ → Text
decimal zero n = []
decimal (suc fuel) n =
    let rest = decimal fuel (n / 10) in (if n / 10 == 0 then [] else rest) ++ (b'0' + n % 10) ∷ []

-- The character behind an underscore.
unfoldable pub character : Bool → List ℕ → Place → Result (Lexeme × Cursor)
unfolding decimal
character eof [] w = missing eof "missing character after underscore"
character eof (c ∷ cs) w =
    ok ((TokenKind.number, decimal 7 c, some (Value.integer (pos c))), (cs, moved c w))

abbrev pub prefixed : Text → Result (Text × Cursor) → Result (Text × Cursor)
prefixed s (err e) = err e
prefixed s (ok (text, k)) = ok (s ++ text, k)

-- The loop up to the closing quote `q`; the last character needs a look at the one behind it if the
-- quote is doubled in a string.
unfoldable pub quoted_text : ℕ → Bool → List ℕ → Place → Result (Text × Cursor)
quoted_text q eof [] w = missing eof "unterminated quoted text"
quoted_text q eof (c ∷ []) w =
    if c == q
    then (if q == 39 && not eof then err need_input else ok ([], ([], moved c w)))
    else (do s ← encode c; missing eof "unterminated quoted text")
quoted_text q eof (c ∷ d ∷ cs) w =
    let next = moved c w in
    let doubled = quoted_text q eof cs (moved d next) in
    let rest = quoted_text q eof (d ∷ cs) next in
    if c == q
    then (if q == 39 && d == q then prefixed (39 ∷ []) doubled else ok ([], (d ∷ cs, next)))
    else (do s ← encode c; prefixed s rest)

unfoldable pub quoted : ℕ → TokenKind → Bool → List ℕ → Place → Result (Lexeme × Cursor)
unfolding quoted_text
quoted q kind eof cs w = do (text, k) ← quoted_text q eof cs w; ok ((kind, text, none), k)

abbrev pub comment_name : Text
comment_name = bytes "COMMEN"

-- A comment, up to its semicolon, which is passed.
unfoldable pub pass_semicolon : List ℕ → Place → Cursor
pass_semicolon [] w = ([], w)
pass_semicolon (c ∷ cs) w = (cs, moved c w)

unfoldable pub comment : Bool → List ℕ → Place → Result (Option Lexeme × Cursor)
unfolding span pass_semicolon
comment eof cs w = do
  (_, (rest, v)) ← closed eof (ok (span (λ c. not (c == b';')) cs w))
  ok (none, pass_semicolon rest v)

-- The text of a word, as it is spelled.
unfoldable pub spelled : Bool → List ℕ → Place → Result (Text × Cursor)
unfolding span
spelled eof cs w =
    let (chars, k) = span (λ c. wordchar c || digit c) cs w in
    closed eof (do text ← encode_all chars; ok (text, k))

unfoldable pub named : Bool → Text → Cursor → Result (Option Lexeme × Cursor)
unfolding comment text_eq
named eof name (cs, w) =
    if text_eq name comment_name
    then comment eof cs w
    else ok (some (TokenKind.word, name, none), (cs, w))

unfoldable pub word : Bool → List ℕ → Place → Result (Option Lexeme × Cursor)
unfolding spelled named
word eof cs w = do (text, k) ← spelled eof cs w; name ← canonical text; named eof name k

-- The characters that may start a symbol of two.
abbrev pub may_join : ℕ → Bool
may_join c =
    c == b'-'
    || c == b'='
    || c == b'<'
    || c == b'>'
    || c == b'/'
    || c == b':'
    || c == b'('
    || c == b'['
    || c == b'%'
    || c == b'.'

abbrev pub is_pair : ℕ → ℕ → Bool
is_pair a b =
    (a == b'-' && b == b'>')
    || (a == b'=' && b == b'>')
    || (a == b'=' && b == b'<')
    || (a == b'>' && b == b'=')
    || (a == b'/' && b == b'=')
    || (a == b'/' && b == b'/')
    || (a == b':' && b == b':')
    || (a == b'<' && b == b'>')
    || (a == b'(' && b == b'%')
    || (a == b'%' && b == b')')
    || (a == b'[' && b == b'%')
    || (a == b'%' && b == b']')

abbrev pub symbol_of : Text → Lexeme
symbol_of text = (TokenKind.symbol, text, none)

-- `char(c)` keeps the low eight bits of a character.
unfoldable pub symbol : Bool → ℕ → List ℕ → Place → Result (Lexeme × Cursor)
symbol eof c [] w =
    if not eof && may_join c then err need_input else ok (symbol_of ((c % 256) ∷ []), ([], w))
symbol eof c (d ∷ cs) w =
    if is_pair (c % 256) (d % 256)
    then ok (symbol_of ((c % 256) ∷ (d % 256) ∷ []), (cs, moved d w))
    else ok (symbol_of ((c % 256) ∷ []), (d ∷ cs, w))

abbrev pub found : Result (Lexeme × Cursor) → Result (Option Lexeme × Cursor)
found (err e) = err e
found (ok (x, k)) = ok (some x, k)

abbrev pub starts_digit : List ℕ → Bool
starts_digit [] = false
starts_digit (c ∷ cs) = digit c

abbrev pub blank : ℕ → Bool
blank c = c == 32 || c == 9 || c == 13 || c == 10

-- One round of the loop, from the character c on: a token, or `none` for what is passed over.
unfoldable pub round : Bool → ℕ → List ℕ → Place → Result (Option Lexeme × Cursor)
unfolding moved character quoted number word symbol
round eof c cs w =
    if blank c
    then ok (none, (cs, moved c w))
    else if c == b'_'
    then found (character eof cs (moved c w))
    else if c == 39
    then found (quoted 39 TokenKind.string eof cs (moved c w))
    else if c == 34
    then found (quoted 34 TokenKind.quoted eof cs (moved c w))
    else if digit c || (c == b'.' && starts_digit cs)
    then found (number eof (c ∷ cs) w)
    else if wordchar c
    then word eof (c ∷ cs) w
    else found (symbol eof c cs (moved c w))

abbrev pub token_at : Text → Place → Lexeme → Token
token_at name w (kind, text, value) = record {
  kind = kind;
  text = text;
  place = record { file = name; line = w.line; column = w.column };
  value = value;
}

abbrev pub end_at : Text → Place → Token
end_at name w = token_at name w (TokenKind.end, [], none)

abbrev pub Tokens : Type 0
Tokens = List Token × Cursor

abbrev pub with_token : Token → Result Tokens → Result Tokens
with_token t (err e) = err e
with_token t (ok (ts, k)) = ok (t ∷ ts, k)

-- `limit && tokens.size() >= limit`
abbrev pub is_full : ℕ → ℕ → Bool
is_full limit size = not (limit == 0) && leb limit size

-- What follows a round that began at w: the next one, or the end of the loop.
abbrev pub going_on :
    (ℕ → List ℕ → Place → Result Tokens)
    → Text
    → ℕ
    → ℕ
    → Place
    → Option Lexeme × Cursor
    → Result Tokens
going_on more name limit size w (none, (rest, v)) = more size rest v
going_on more name limit size w (some x, (rest, v)) =
    let others = more (suc size) rest v in
    if is_full limit (suc size)
    then ok (token_at name w x ∷ [], (rest, v))
    else with_token (token_at name w x) others

-- The loop, with `size` tokens so far, and where it stopped. A round consumes a character, so their
-- number is fuel enough.
unfoldable pub tokens_from : ℕ → Bool → Text → ℕ → ℕ → List ℕ → Place → Result Tokens
unfolding round
tokens_from fuel eof name limit size [] w = ok ([], ([], w))
tokens_from zero eof name limit size (c ∷ cs) w = ok ([], (c ∷ cs, w))
tokens_from (suc fuel) eof name limit size (c ∷ cs) w =
    round eof c cs w >>= going_on (tokens_from fuel eof name limit) name limit size w

abbrev pub first_place : Place
first_place = record { line = 1; column = 1 }

unfoldable pub tokens_of : Bool → Text → ℕ → List ℕ → Result Tokens
unfolding tokens_from
tokens_of eof name limit chars = tokens_from (length chars) eof name limit 0 chars first_place

-- tokenize(source, name, eof, limit)
unfoldable pub tokenize : List ℕ → Text → Bool → ℕ → Result (List Token)
unfolding tokens_of decode
tokenize source name eof limit = do
  chars ← decode source
  (tokens, (_, w)) ← tokens_of eof name limit chars
  ok (tokens ++ end_at name w ∷ [])
