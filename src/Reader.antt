-- ===== src/Reader.antt =====
-- The lexical reader of the runtime: `lex_available` and `read_physical_token`, with the reader's
-- part of `feed` and of the primitive @FEED (standalone/src/runtime.cpp, standalone/src/primitives.cpp).
pub mod Walk
pub mod Consumed
pub mod Settled
pub mod Undecoded
pub mod Finishes
pub mod Placed
pub mod Rounds
pub mod Fronts
pub mod Refines
use re_poplan.Prelude.{
  ℕ, zero, suc, ◌+◌, ◌-◌, Bool, true, false, not, ◌&&◌, ◌||◌, List, [], ◌∷◌, ◌++◌, Option, none,
  some, ltb, ◌==◌, if◌then◌else◌, length, take, drop, get_elem?,
}
use re_poplan.Prelude.Int.{ℤ, pos, negsuc, ltb_ℤ}
use re_poplan.Value.{
  Value, Exception, fault, need_input, Result, ok, err, ◌>>=◌, throw, bytes, terminator, integer,
}
use re_poplan.Numbers
use re_poplan.Utf8.{encode, Decoding, decoding, decode}
use re_poplan.State.{Text, text_eq, Location, Token, TokenKind}
use re_poplan.Tokenizer.{first_place, tokenize}
use re_poplan.Tokenizer.Places.{Place, moved}

-- The members of the runtime that hold the source that was fed: the bytes not tokenized yet, their
-- place, the tokens and the number of those read, and the error that waits behind them.
pub record Lexer : Type 0 where
  pub pending : List ℕ
  pub pending_name : Text
  pub lex_location : Location
  pub lex_failure : Text
  pub input : List Token
  pub input_position : ℕ
  pub input_eof : Bool

abbrev pub end_token : Location → Token
end_token l = record { kind = TokenKind.end; text = []; place = l; value = none }

-- The message of what stopped `decode`, and whether that was a need of input.
abbrev pub decoding_error : Bool → Option Exception → Text
decoding_error eof none = []
decoding_error eof (some (fault message)) = message
decoding_error eof (some _) = if eof then bytes "truncated UTF-8 input" else []

abbrev pub incomplete_utf8 : Option Exception → Bool
incomplete_utf8 (some need_input) = true
incomplete_utf8 _ = false

abbrev pub is_empty {ℓ} : {A : Type ℓ} → List A → Bool
is_empty [] = true
is_empty (_ ∷ _) = false

-- `lex_failure_ = message; pending_.clear();`
abbrev pub with_failure : Text → Lexer → Lexer
with_failure message r = record r { lex_failure = message; pending = [] }

unfoldable pub fail_decoding : Text → Lexer → Lexer
fail_decoding message r = if is_empty message then r else with_failure message r

-- `line < end.line || (line == end.line && column < end.column)`
unfoldable pub before : Place → Place → Bool
before w end = ltb w.line end.line || (w.line == end.line && ltb w.column end.column)

-- The loop that counts the bytes of the characters in front of `end`.
unfoldable pub walk : Place → List ℕ → Place → ℕ → Result (Place × ℕ)
unfolding before moved encode
walk end [] w n = ok (w, n)
walk end (c ∷ cs) w n =
    let rest = λ (s : List ℕ). walk end cs (moved c w) (n + length s) in
    if before w end then encode c >>= rest else ok (w, n)

-- Places counted from the start of `pending_`, counted from the start of the source.
unfoldable pub shifted : Location → Place → Place
shifted l w =
    if w.line == 1
    then record { line = w.line + (l.line - 1); column = w.column + (l.column - 1) }
    else record { line = w.line + (l.line - 1); column = w.column }

abbrev pub located : Text → Place → Location
located name w = record { file = name; line = w.line; column = w.column }

abbrev pub place_of : Location → Place
place_of l = record { line = l.line; column = l.column }

unfoldable pub shifted_token : Location → Token → Token
unfolding shifted
shifted_token l t = record t { place = located t.place.file (shifted l (place_of t.place)) }

-- `lex_location_` after the walk has come to w.
unfoldable pub advanced : Location → Place → Location
advanced l w =
    if w.line == 1
    then record l { column = l.column + (w.column - 1) }
    else record l { line = l.line + (w.line - 1); column = w.column }

-- input.insert(input.end() - 1, t), and `input.back().where = l`
unfoldable pub insert_last : Token → List Token → List Token
insert_last t [] = t ∷ []
insert_last t (e ∷ []) = t ∷ e ∷ []
insert_last t (s ∷ e ∷ ts) = s ∷ insert_last t (e ∷ ts)

unfoldable pub place_last : Location → List Token → List Token
place_last l [] = []
place_last l (e ∷ []) = record e { place = l } ∷ []
place_last l (s ∷ e ∷ ts) = s ∷ place_last l (e ∷ ts)

-- `if (tokens.size() > 1)` the first one is put in front of the end.
unfoldable pub accepted : Location → List Token → List Token → List Token
unfolding shifted_token insert_last
accepted l (t ∷ _ ∷ _) input = insert_last (shifted_token l t) input
accepted l _ input = input

unfoldable pub last_place : List Token → Place
last_place [] = first_place
last_place (t ∷ []) = place_of t.place
last_place (s ∷ t ∷ ts) = last_place (t ∷ ts)

unfoldable pub consume : Lexer → List Token → Place × ℕ → Lexer
unfolding accepted advanced place_last
consume r tokens (w, n) =
    let l = advanced r.lex_location w in
    record r {
      input = place_last l (accepted r.lex_location tokens r.input);
      lex_location = l;
      pending = drop n r.pending;
    }

-- A round of the loop: the reader, and whether the loop goes on.
abbrev pub Round : Type 0
Round = Lexer × Bool

unfoldable pub walked : Text → Lexer → List Token → Place × ℕ → Round
unfolding fail_decoding consume
walked message r tokens (w, n) =
    if n == 0 then (fail_decoding message r, false) else (consume r tokens (w, n), true)

unfoldable pub tokenized : Text → List ℕ → Lexer → Result (List Token) → Result Round
unfolding fail_decoding walk walked last_place
tokenized message available r (err need_input) = ok (fail_decoding message r, false)
tokenized message available r (err (fault text)) = ok (with_failure text r, false)
tokenized message available r (err e) = err e
tokenized message available r (ok tokens) = do
  chars ← decode available
  (w, n) ← walk (last_place tokens) chars first_place 0
  ok (walked message r tokens (w, n))

-- The valid prefix is not the end of the source where a bad byte follows.
unfoldable pub lex_round : Lexer → Result Round
unfolding tokenized
lex_round r =
    let d = decoding r.pending in
    let message = decoding_error r.input_eof d.stop in
    let available = take d.valid_bytes r.pending in
    let eof = r.input_eof && not (incomplete_utf8 d.stop) && is_empty message in
    tokenized message available r (tokenize available r.pending_name eof 1)

abbrev pub repeated : (Lexer → Result Lexer) → Result Round → Result Lexer
repeated more (err e) = err e
repeated more (ok (r, true)) = more r
repeated more (ok (r, false)) = ok r

-- A round that goes on takes a byte of `pending_` at least, so their number is fuel enough.
unfoldable pub lex_loop : ℕ → Lexer → Result Lexer
unfolding lex_round
lex_loop zero r = ok r
lex_loop (suc fuel) r = if is_empty r.pending then ok r else repeated (lex_loop fuel) (lex_round r)

unfoldable pub with_end : Lexer → Lexer
with_end r = if is_empty r.input then record r { input = end_token r.lex_location ∷ [] } else r

-- lex_available()
unfoldable pub lex_available : Lexer → Result Lexer
unfolding lex_loop with_end
lex_available r = lex_loop (length r.pending) (with_end r)

-- read_physical_token(): the token, or what is thrown, and the reader.
abbrev pub no_token : Token
no_token = end_token (record { file = bytes "<stdin>"; line = 1; column = 1 })

unfoldable pub at_end : Lexer → Result Token × Lexer
at_end r =
    if is_empty r.lex_failure
    then (if r.input_eof then ok no_token else err need_input, r)
    else (err (fault r.lex_failure), record r { lex_failure = [] })

abbrev pub is_end : TokenKind → Bool
is_end TokenKind.end = true
is_end _ = false

unfoldable pub token_read : Lexer → Option Token → Result Token × Lexer
unfolding at_end
token_read r none = at_end r
token_read r (some t) =
    if is_end t.kind then at_end r else (ok t, record r { input_position = suc r.input_position })

unfoldable pub read_physical_token : Lexer → Result Token × Lexer
unfolding token_read
read_physical_token r = token_read r (get_elem? r.input r.input_position)

-- A session begins.
unfoldable pub opened : Text → Lexer → Lexer
opened name r =
    let l = located name first_place in
    record r {
      pending = [];
      lex_failure = [];
      pending_name = name;
      lex_location = l;
      input = end_token l ∷ [];
      input_position = 0;
    }

abbrev pub more_bytes : List ℕ → Bool → Lexer → Lexer
more_bytes s eof r = record r { input_eof = eof; pending = r.pending ++ s }

-- feed(source_id, bytes, eof) up to `resume()`; the fault is caught there.
unfoldable pub feed : Bool → Text → List ℕ → Bool → Lexer → Result Lexer
unfolding opened lex_available text_eq
feed session_active source_id s eof r =
    if not session_active
    then lex_available (more_bytes s eof (opened source_id r))
    else if not (text_eq source_id r.pending_name)
    then throw "input belongs to a different active source"
    else lex_available (more_bytes s eof r)

-- The primitive @FEED: a character of the source, or the end. The supplier that it drops at the end
-- is not a member of the record.
unfoldable pub feed_end : Lexer → Result Lexer
unfolding lex_available
feed_end r = lex_available (record r { input_eof = true })

unfoldable pub feed_character : ℤ → Lexer → Result Lexer
unfolding lex_available encode feed_end
feed_character (pos c) r =
    if c == 94
    then feed_end r
    else if ltb 0x10ffff c
    then throw "invalid source character"
    else encode c >>= (λ s. lex_available (record r { pending = r.pending ++ s }))
feed_character (negsuc c) r = throw "invalid source character"

unfoldable pub feed_value : Value → Lexer → Result Lexer
unfolding feed_end feed_character
feed_value Value.terminator r = feed_end r
feed_value v r = do n ← Numbers.integer v; feed_character n r
