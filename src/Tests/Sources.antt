-- ===== src/Tests/Sources.antt =====
-- The tokenizer and the lexical reader on concrete sources.
use re_poplan.Prelude.{ℕ, ◌≡◌, refl, true, false, List, [], ◌∷◌, ◌++◌, none, some, arith}
use re_poplan.Value.{Value, ok, err, need_input, bytes}
use re_poplan.Prelude.Int.{pos}
use re_poplan.Utf8.{decode, decode_scalar, encode_all, encode}
use re_poplan.Names.{canonical, fold, homoglyph, upper}
use re_poplan.State.{Text, Token, TokenKind, Location}
use re_poplan.Tokenizer.{first_place, token_at, end_at, round, tokens_from, tokens_of, tokenize}
use re_poplan.Tokenizer.Places.{Place}
use re_poplan.Tokenizer.Loop.{with_tokens, tokens_from-append}
use re_poplan.Tokenizer.Stops.{Outcome, tokens_of-Outcome}
use re_poplan.Reader.{Lexer, end_token, lex_available, located}
use re_poplan.Reader.Settled.{Reads, Settled, lex_available-Reads}
use re_poplan.Reader.Finishes.{lex_available-total}
use re_poplan.Reader.Refines.{TokensRead, lex_available-TokensRead}

abbrev at : ℕ → ℕ → Place
at line column = record { line = line; column = column }

abbrev symbol_at : Text → Place → Token
symbol_at text w = token_at [] w (TokenKind.symbol, text, none)

abbrev word_at : Text → Place → Token
word_at text w = token_at [] w (TokenKind.word, text, none)

abbrev number_at : Text → Place → Token
number_at text w = token_at [] w (TokenKind.number, text, none)

-- An arrow, a comment that is passed over, an apostrophe that is doubled, and a point before a digit.
tokenize_all :
    tokenize (bytes "x->y2\ncomment a;'it''s' .5$-1 8:17 _a") [] true 0
    ≡ ok (
        word_at (bytes "X") (at 1 1)
        ∷ symbol_at (bytes "->") (at 1 2)
        ∷ word_at (bytes "Y2") (at 1 4)
        ∷ token_at [] (at 2 11) (TokenKind.string, bytes "it's", none)
        ∷ number_at (bytes ".5e-1") (at 2 19)
        ∷ number_at (bytes "8:17") (at 2 25)
        ∷ token_at [] (at 2 30) (TokenKind.number, bytes "97", some (Value.integer (pos 97)))
        ∷ end_at [] (at 2 32)
        ∷ [])
unfolding tokenize tokens_of round bytes decode decode_scalar encode_all encode canonical fold
    homoglyph upper
tokenize_all = refl

-- A word may go on, and so may a symbol that starts a pair.
tokenize_word : tokenize (bytes "ab") [] false 0 ≡ err need_input
unfolding tokenize tokens_of round bytes decode decode_scalar encode_all encode canonical fold
    homoglyph upper
tokenize_word = refl

tokenize_minus : tokenize (bytes "ab -") [] false 0 ≡ err need_input
unfolding tokenize tokens_of round bytes decode decode_scalar encode_all encode canonical fold
    homoglyph upper
tokenize_minus = refl

abbrev front : List ℕ
front = bytes "a b;"

abbrev back : List ℕ
back = bytes "\nc"

abbrev front_tokens : List Token
front_tokens =
    word_at (bytes "A") (at 1 1)
    ∷ word_at (bytes "B") (at 1 3)
    ∷ symbol_at (bytes ";") (at 1 4)
    ∷ []

front_read : tokens_from 4 false [] 0 0 front first_place ≡ ok (front_tokens, ([], at 1 5))
unfolding tokens_from round bytes decode decode_scalar encode_all encode canonical fold homoglyph
    upper
front_read = refl

tokens_from-append_example :
    tokens_from 6 true [] 0 0 (front ++ back) first_place
    ≡ with_tokens front_tokens (tokens_from 2 true [] 0 0 back (at 1 5))
unfolding bytes
tokens_from-append_example =
    tokens_from-append 4 6 true [] 0 front back first_place (at 1 5) front_tokens (omega arith)
      (omega arith) front_read

tokens_of-Outcome_example :
    Outcome false (bytes "a - ") first_place (tokens_of false [] 0 (bytes "a - "))
tokens_of-Outcome_example = tokens_of-Outcome false [] (bytes "a - ")

-- "b; c" behind two tokens that were read, with more to come.
abbrev place : ℕ → ℕ → Location
place line column = located [] (at line column)

abbrev started : Lexer
started = record {
  pending = bytes "b;\n c";
  pending_name = [];
  lex_location = place 3 7;
  lex_failure = [];
  input = end_token (place 3 7) ∷ [];
  input_position = 0;
  input_eof = false;
}

abbrev stopped : Lexer
stopped = record {
  pending = bytes "\n c";
  pending_name = [];
  lex_location = place 3 9;
  lex_failure = [];
  input =
      word_at (bytes "B") (at 3 7) ∷ symbol_at (bytes ";") (at 3 8) ∷ end_token (place 3 9) ∷ [];
  input_position = 0;
  input_eof = false;
}

stopped_run : lex_available started ≡ ok stopped
unfolding lex_available tokenize tokens_of round bytes decode decode_scalar encode_all encode
    canonical fold homoglyph upper
stopped_run = refl

lex_available-Reads_example : Reads started stopped × Settled stopped
unfolding bytes
lex_available-Reads_example =
    lex_available-Reads started stopped (omega arith) (omega arith, omega arith) stopped_run

abbrev ended : Lexer
ended = record started { input_eof = true }

lex_available-total_example :
    (next : Lexer) × (lex_available ended ≡ ok next) × (true ≡ true → next.pending ≡ [])
unfolding bytes
lex_available-total_example = lex_available-total ended (omega arith) (omega arith, omega arith)

abbrev ended_tokens : List Token
ended_tokens =
    word_at (bytes "B") (at 3 7)
    ∷ symbol_at (bytes ";") (at 3 8)
    ∷ word_at (bytes "C") (at 4 2)
    ∷ []

ended_encode : encode_all (bytes "b;\n c") ≡ ok ended.pending
unfolding encode_all encode bytes
ended_encode = refl

ended_read : tokens_from 5 true [] 0 0 (bytes "b;\n c") (at 3 7) ≡ ok (ended_tokens, ([], at 4 3))
unfolding tokens_from round bytes decode decode_scalar encode_all encode canonical fold homoglyph
    upper
ended_read = refl

lex_available-TokensRead_example : TokensRead ended ended_tokens (at 4 3) (lex_available ended)
unfolding bytes
lex_available-TokensRead_example =
    lex_available-TokensRead ended (bytes "b;\n c") ended_tokens (at 4 3) ended_encode
      (omega arith, omega arith) ended_read
