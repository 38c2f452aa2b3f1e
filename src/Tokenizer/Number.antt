-- ===== src/Tokenizer/Number.antt =====
-- The number branch of `tokenize` (standalone/src/value.cpp).
use re_poplan.Prelude.{
  ℕ, Bool, false, not, ◌&&◌, ◌||◌, List, [], ◌∷◌, ◌++◌, none, ◌==◌, if◌then◌else◌,
}
use re_poplan.Value.{Result, ok, err, ◌>>=◌, need_input}
use re_poplan.State.{Text, TokenKind}
use re_poplan.Tokenizer.Places.{Place, Cursor, moved, digit, span, missing, Lexeme}

-- The digits of an exponent.
unfoldable pub exponent_of_digits : Bool → Text → List ℕ → Cursor → Result (Text × Cursor)
exponent_of_digits eof text [] k = missing eof "missing real exponent"
exponent_of_digits eof text (d ∷ ds) k = ok (text ++ d ∷ ds, k)

unfoldable pub exponent_digits : Bool → Text → List ℕ → Place → Result (Text × Cursor)
unfolding span exponent_of_digits
exponent_digits eof text cs w = let (ds, k) = span digit cs w in exponent_of_digits eof text ds k

unfoldable pub exponent_sign : Bool → Text → List ℕ → Place → Result (Text × Cursor)
unfolding exponent_digits
exponent_sign eof text [] w = exponent_digits eof text [] w
exponent_sign eof text (c ∷ cs) w =
    if c == b'+' || c == b'-'
    then exponent_digits eof (text ++ c ∷ []) cs (moved c w)
    else exponent_digits eof text (c ∷ cs) w

unfoldable pub exponent : Bool → Text → List ℕ → Place → Result (Text × Cursor)
unfolding exponent_sign
exponent eof text [] w = ok (text, ([], w))
exponent eof text (c ∷ cs) w =
    if c == b'$' || c == b'&'
    then exponent_sign eof (text ++ b'e' ∷ []) cs (moved c w)
    else ok (text, (c ∷ cs, w))

-- The digits behind a point, and the exponent.
unfoldable pub fraction_digits : Bool → Text → List ℕ → Place → Result (Text × Cursor)
unfolding span exponent
fraction_digits eof text cs w =
    let (ds, (rest, v)) = span digit cs w in exponent eof (text ++ b'.' ∷ ds) rest v

unfoldable pub fraction : Bool → Text → List ℕ → Place → Result (Text × Cursor)
unfolding fraction_digits
fraction eof text [] w = exponent eof text [] w
fraction eof text (c ∷ []) w =
    if not eof && c == b'.' then err need_input else exponent eof text (c ∷ []) w
fraction eof text (c ∷ d ∷ cs) w =
    if c == b'.' && digit d
    then fraction_digits eof text (d ∷ cs) (moved c w)
    else exponent eof text (c ∷ d ∷ cs) w

-- The digits of a number with the radix 2 or 8.
unfoldable pub radix_digits : Text → List ℕ → Place → Result (Text × Cursor)
unfolding span
radix_digits text cs w = let (ds, k) = span digit cs w in ok (text ++ b':' ∷ ds, k)

abbrev pub is_radix : Text → Bool
is_radix (c ∷ []) = c == b'2' || c == b'8'
is_radix _ = false

unfoldable pub number_rest : Bool → Text → List ℕ → Place → Result (Text × Cursor)
unfolding radix_digits fraction
number_rest eof text [] w = fraction eof text [] w
number_rest eof text (c ∷ cs) w =
    if c == b':' && is_radix text
    then radix_digits text cs (moved c w)
    else fraction eof text (c ∷ cs) w

-- `if (pos == chars.size() && !eof) throw NeedInput{};`
abbrev pub closed {ℓ} : {A : Type ℓ} → Bool → Result (A × Cursor) → Result (A × Cursor)
closed eof (err e) = err e
closed eof (ok (a, ([], w))) = if eof then ok (a, ([], w)) else err need_input
closed eof (ok (a, (c ∷ cs, w))) = ok (a, (c ∷ cs, w))

unfoldable pub number : Bool → List ℕ → Place → Result (Lexeme × Cursor)
unfolding span number_rest
number eof cs w = do
  (text, k) ← (let (ds, (rest, v)) = span digit cs w in closed eof (number_rest eof ds rest v))
  ok ((TokenKind.number, text, none), k)
