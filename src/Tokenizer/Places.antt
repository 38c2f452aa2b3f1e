-- ===== src/Tokenizer/Places.antt =====
-- `advance` and the tests of characters in `tokenize` (standalone/src/value.cpp), and what a token is
-- read to.
use Prim.Native.String.{String}
use re_poplan.Prelude.{ℕ, suc, Bool, ◌&&◌, ◌||◌, List, [], ◌∷◌, Option, leb, ◌==◌, if◌then◌else◌}
use re_poplan.Value.{Value, Result, err, need_input, throw}
use re_poplan.State.{Text, TokenKind}

pub record Place : Type 0 where
  pub line : ℕ
  pub column : ℕ

-- The characters from `pos` on, and the place of the first.
abbrev pub Cursor : Type 0
Cursor = List ℕ × Place

-- advance()
unfoldable pub moved : ℕ → Place → Place
moved c w =
    if c == 10
    then record { line = suc w.line; column = 1 }
    else record { line = w.line; column = suc w.column }

abbrev pub digit : ℕ → Bool
digit c = leb b'0' c && leb c b'9'

abbrev pub wordchar : ℕ → Bool
wordchar c = (leb b'A' c && leb c b'Z') || (leb b'a' c && leb c b'z') || c == b'_' || leb 128 c

-- `while (pos < chars.size() && p(chars[pos])) …`: the characters that it passes.
unfoldable pub span : (ℕ → Bool) → List ℕ → Place → List ℕ × Cursor
span p [] w = ([], ([], w))
span p (c ∷ cs) w =
    let (text, k) = span p cs (moved c w) in if p c then (c ∷ text, k) else ([], (c ∷ cs, w))

-- At the end of what is there, more input is needed, unless it is the end of the source.
abbrev pub missing : {A : Type 0} → Bool → String → Result A
missing eof message = if eof then throw message else err need_input

-- What a token is read to, without its place: its kind, its text and its value.
abbrev pub Lexeme : Type 0
Lexeme = TokenKind × Text × Option Value
