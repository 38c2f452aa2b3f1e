-- ===== src/Tokenizer/Alike.antt =====
-- A round of the tokenizer from two places.
use Prim.Native.String.{String}
use re_poplan.Prelude.{
  ℕ, ◌%◌, Bool, true, false, not, ◌&&◌, ◌||◌, List, [], ◌∷◌, ◌++◌, Option, none, some, ◌==◌,
  if◌then◌else◌, Bool-cases, inl, inr,
}
use re_poplan.Value.{Exception, Result, ok, err, ◌>>=◌, need_input}
use re_poplan.Utf8.{encode, encode_all}
use re_poplan.Names.{canonical}
use re_poplan.State.{Text, text_eq, TokenKind}
use re_poplan.Tokenizer.{
  character, quoted_text, quoted, prefixed, comment_name, pass_semicolon, comment, spelled, named,
  word, may_join, is_pair, symbol, found, starts_digit, blank, round,
}
use re_poplan.Tokenizer.Places.{Place, Cursor, moved, digit, wordchar, span, missing, Lexeme}
use re_poplan.Tokenizer.Number.{
  exponent_of_digits, exponent_digits, exponent_sign, exponent, fraction_digits, fraction,
  radix_digits, is_radix, number_rest, closed, number,
}

-- The same is thrown, or the same is read and left, with places in the relation R.
pub data Alike (R : Place → Place → Type 0) {A : Type 0}
    : Result (A × Cursor) → Result (A × Cursor) → Type 0 where
  thrown : (e : Exception) → Alike R (err e) (err e)
  read : (a : A) (cs : List ℕ) (w v : Place) → R w v → Alike R (ok (a, (cs, w))) (ok (a, (cs, v)))

data Spans (R : Place → Place → Type 0) : List ℕ × Cursor → List ℕ × Cursor → Type 0 where
  spans : (t cs : List ℕ) (w v : Place) → R w v → Spans R (t, (cs, w)) (t, (cs, v))

module _ (R : Place → Place → Type 0)
    (step : (c : ℕ) (w v : Place) → R w v → R (moved c w) (moved c v)) where
  if-Alike :
      {A : Type 0} (b : Bool) (x y x' y' : Result (A × Cursor))
      → Alike R x x'
      → Alike R y y'
      → Alike R (if b then x else y) (if b then x' else y')
  if-Alike true x y x' y' h k = h
  if-Alike false x y x' y' h k = k

  missing-Alike :
      (A : Type 0) (eof : Bool) (t : String) → Alike R {A = A} (missing eof t) (missing eof t)
  missing-Alike A true t = thrown _
  missing-Alike A false t = thrown _

  bind-Alike :
      {A B : Type 0} (x : Result A) (f g : A → Result (B × Cursor))
      → ((a : A) → Alike R (f a) (g a))
      → Alike R (x >>= f) (x >>= g)
  bind-Alike (err e) f g h = thrown e
  bind-Alike (ok a) f g h = h a

  then-Alike :
      {A B : Type 0} (x y : Result (A × Cursor)) (f : A × Cursor → Result (B × Cursor))
      → Alike R x y
      → ((a : A) (cs : List ℕ) (w v : Place) → R w v → Alike R (f (a, (cs, w))) (f (a, (cs, v))))
      → Alike R (x >>= f) (y >>= f)
  then-Alike _ _ f (thrown e) h = thrown e
  then-Alike _ _ f (read a cs w v r) h = h a cs w v r

  closed-Alike :
      {A : Type 0} (eof : Bool) (x y : Result (A × Cursor))
      → Alike R x y
      → Alike R (closed eof x) (closed eof y)
  closed-Alike eof _ _ (thrown e) = thrown e
  closed-Alike true _ _ (read a [] w v r) = read a [] w v r
  closed-Alike false _ _ (read a [] w v r) = thrown need_input
  closed-Alike eof _ _ (read a (c ∷ cs) w v r) = read a (c ∷ cs) w v r

  found-Alike : (x y : Result (Lexeme × Cursor)) → Alike R x y → Alike R (found x) (found y)
  found-Alike _ _ (thrown e) = thrown e
  found-Alike _ _ (read a cs w v r) = read (some a) cs w v r

  prefixed-Alike :
      (t : Text) (x y : Result (Text × Cursor))
      → Alike R x y
      → Alike R (prefixed t x) (prefixed t y)
  prefixed-Alike t _ _ (thrown e) = thrown e
  prefixed-Alike t _ _ (read a cs w v r) = read (t ++ a) cs w v r

  cons-Spans : (c : ℕ) (x y : List ℕ × Cursor) → Spans R x y → Spans R (c ∷ x.0, x.1) (c ∷ y.0, y.1)
  cons-Spans c _ _ (spans t cs w v r) = spans (c ∷ t) cs w v r

  span-Spans :
      (p : ℕ → Bool) (cs : List ℕ) (w v : Place) → R w v → Spans R (span p cs w) (span p cs v)
  unfolding span
  span-Spans p [] w v r = spans [] [] w v r
  span-Spans p (c ∷ cs) w v r = elim (Bool-cases (p c)) [
    | inl y ↦ rw y (cons-Spans c _ _ (span-Spans p cs (moved c w) (moved c v) (step c w v r)))
    | inr n ↦ rw n (spans [] (c ∷ cs) w v r)
  ]

  after-Spans :
      {B : Type 0} (f : List ℕ → List ℕ → Place → Result (B × Cursor)) (x y : List ℕ × Cursor)
      → Spans R x y
      → ((t cs : List ℕ) (w v : Place) → R w v → Alike R (f t cs w) (f t cs v))
      → Alike R (f x.0 x.1.0 x.1.1) (f y.0 y.1.0 y.1.1)
  after-Spans f _ _ (spans t cs w v r) h = h t cs w v r

  character-Alike :
      (eof : Bool) (cs : List ℕ) (w v : Place)
      → R w v
      → Alike R (character eof cs w) (character eof cs v)
  unfolding character
  character-Alike eof [] w v r = missing-Alike _ eof _
  character-Alike eof (c ∷ cs) w v r = read _ cs (moved c w) (moved c v) (step c w v r)

  quoted_text-Alike :
      (q : ℕ) (eof : Bool) (cs : List ℕ) (w v : Place)
      → R w v
      → Alike R (quoted_text q eof cs w) (quoted_text q eof cs v)
  unfolding quoted_text
  quoted_text-Alike q eof [] w v r = missing-Alike _ eof _
  quoted_text-Alike q eof (c ∷ []) w v r =
      if-Alike (c == q) _ _ _ _
        (if-Alike (q == 39 && not eof) _ _ _ _ (thrown need_input)
          (read [] [] (moved c w) (moved c v) (step c w v r)))
        (bind-Alike (encode c) _ _ (λ s. missing-Alike _ eof _))
  quoted_text-Alike q eof (c ∷ d ∷ cs) w v r =
      let next = step c w v r in
      if-Alike (c == q) _ _ _ _
        (if-Alike (q == 39 && d == q) _ _ _ _
          (prefixed-Alike (39 ∷ []) _ _ (
            quoted_text-Alike q eof cs (moved d (moved c w)) (moved d (moved c v))
              (step d (moved c w) (moved c v) next)))
          (read [] (d ∷ cs) (moved c w) (moved c v) next))
        (bind-Alike (encode c) _ _ (λ s.
          prefixed-Alike s _ _ (quoted_text-Alike q eof (d ∷ cs) (moved c w) (moved c v) next)))

  quoted-Alike :
      (q : ℕ) (k : TokenKind) (eof : Bool) (cs : List ℕ) (w v : Place)
      → R w v
      → Alike R (quoted q k eof cs w) (quoted q k eof cs v)
  unfolding quoted
  quoted-Alike q k eof cs w v r =
      then-Alike (quoted_text q eof cs w) (quoted_text q eof cs v) _
        (quoted_text-Alike q eof cs w v r) (λ text ds x y s. read (k, text, none) ds x y s)

  of_digits-Alike :
      (eof : Bool) (text ds cs : List ℕ) (w v : Place)
      → R w v
      → Alike R (exponent_of_digits eof text ds (cs, w)) (exponent_of_digits eof text ds (cs, v))
  unfolding exponent_of_digits
  of_digits-Alike eof text [] cs w v r = missing-Alike _ eof _
  of_digits-Alike eof text (d ∷ ds) cs w v r = read _ cs w v r

  exponent_digits-Alike :
      (eof : Bool) (text cs : List ℕ) (w v : Place)
      → R w v
      → Alike R (exponent_digits eof text cs w) (exponent_digits eof text cs v)
  unfolding exponent_digits
  exponent_digits-Alike eof text cs w v r =
      after-Spans (λ t ds x. exponent_of_digits eof text t (ds, x)) (span digit cs w)
        (span digit cs v) (span-Spans digit cs w v r)
        (λ t ds x y s. of_digits-Alike eof text t ds x y s)

  exponent_sign-Alike :
      (eof : Bool) (text cs : List ℕ) (w v : Place)
      → R w v
      → Alike R (exponent_sign eof text cs w) (exponent_sign eof text cs v)
  unfolding exponent_sign
  exponent_sign-Alike eof text [] w v r = exponent_digits-Alike eof text [] w v r
  exponent_sign-Alike eof text (c ∷ cs) w v r =
      if-Alike (c == b'+' || c == b'-') _ _ _ _
        (exponent_digits-Alike eof (text ++ c ∷ []) cs (moved c w) (moved c v) (step c w v r))
        (exponent_digits-Alike eof text (c ∷ cs) w v r)

  exponent-Alike :
      (eof : Bool) (text cs : List ℕ) (w v : Place)
      → R w v
      → Alike R (exponent eof text cs w) (exponent eof text cs v)
  unfolding exponent
  exponent-Alike eof text [] w v r = read text [] w v r
  exponent-Alike eof text (c ∷ cs) w v r =
      if-Alike (c == b'$' || c == b'&') _ _ _ _
        (exponent_sign-Alike eof (text ++ b'e' ∷ []) cs (moved c w) (moved c v) (step c w v r))
        (read text (c ∷ cs) w v r)

  fraction_digits-Alike :
      (eof : Bool) (text cs : List ℕ) (w v : Place)
      → R w v
      → Alike R (fraction_digits eof text cs w) (fraction_digits eof text cs v)
  unfolding fraction_digits
  fraction_digits-Alike eof text cs w v r =
      after-Spans (λ t ds x. exponent eof (text ++ b'.' ∷ t) ds x) (span digit cs w)
        (span digit cs v) (span-Spans digit cs w v r)
        (λ t ds x y s. exponent-Alike eof (text ++ b'.' ∷ t) ds x y s)

  fraction-Alike :
      (eof : Bool) (text cs : List ℕ) (w v : Place)
      → R w v
      → Alike R (fraction eof text cs w) (fraction eof text cs v)
  unfolding fraction
  fraction-Alike eof text [] w v r = exponent-Alike eof text [] w v r
  fraction-Alike eof text (c ∷ []) w v r =
      if-Alike (not eof && c == b'.') _ _ _ _ (thrown need_input)
        (exponent-Alike eof text (c ∷ []) w v r)
  fraction-Alike eof text (c ∷ d ∷ cs) w v r =
      if-Alike (c == b'.' && digit d) _ _ _ _
        (fraction_digits-Alike eof text (d ∷ cs) (moved c w) (moved c v) (step c w v r))
        (exponent-Alike eof text (c ∷ d ∷ cs) w v r)

  radix_digits-Alike :
      (text cs : List ℕ) (w v : Place)
      → R w v
      → Alike R (radix_digits text cs w) (radix_digits text cs v)
  unfolding radix_digits
  radix_digits-Alike text cs w v r =
      after-Spans (λ t ds x. ok (text ++ b':' ∷ t, (ds, x))) (span digit cs w) (span digit cs v)
        (span-Spans digit cs w v r) (λ t ds x y s. read _ ds x y s)

  number_rest-Alike :
      (eof : Bool) (text cs : List ℕ) (w v : Place)
      → R w v
      → Alike R (number_rest eof text cs w) (number_rest eof text cs v)
  unfolding number_rest
  number_rest-Alike eof text [] w v r = fraction-Alike eof text [] w v r
  number_rest-Alike eof text (c ∷ cs) w v r =
      if-Alike (c == b':' && is_radix text) _ _ _ _
        (radix_digits-Alike text cs (moved c w) (moved c v) (step c w v r))
        (fraction-Alike eof text (c ∷ cs) w v r)

  number-Alike :
      (eof : Bool) (cs : List ℕ) (w v : Place) → R w v → Alike R (number eof cs w) (number eof cs v)
  unfolding number
  number-Alike eof cs w v r =
      then-Alike _ _ _
        (closed-Alike eof _ _ (
          after-Spans (λ t ds x. number_rest eof t ds x) (span digit cs w) (span digit cs v)
            (span-Spans digit cs w v r) (λ t ds x y s. number_rest-Alike eof t ds x y s)))
        (λ text ds x y s. read (TokenKind.number, text, none) ds x y s)

  pass_semicolon-Alike :
      (cs : List ℕ) (w v : Place)
      → R w v
      → Alike R {A = Option Lexeme}
          (ok (none, pass_semicolon cs w))
          (ok (none, pass_semicolon cs v))
  unfolding pass_semicolon
  pass_semicolon-Alike [] w v r = read none [] w v r
  pass_semicolon-Alike (c ∷ cs) w v r = read none cs (moved c w) (moved c v) (step c w v r)

  comment-Alike :
      (eof : Bool) (cs : List ℕ) (w v : Place)
      → R w v
      → Alike R (comment eof cs w) (comment eof cs v)
  unfolding comment
  comment-Alike eof cs w v r =
      let p = λ (c : ℕ). not (c == b';') in
      then-Alike _ _ _
        (closed-Alike eof _ _ (
          after-Spans (λ t ds x. ok (t, (ds, x))) (span p cs w) (span p cs v)
            (span-Spans p cs w v r) (λ t ds x y s. read t ds x y s)))
        (λ t ds x y s. pass_semicolon-Alike ds x y s)

  named-Alike :
      (eof : Bool) (name cs : List ℕ) (w v : Place)
      → R w v
      → Alike R (named eof name (cs, w)) (named eof name (cs, v))
  unfolding named
  named-Alike eof name cs w v r =
      if-Alike (text_eq name comment_name) _ _ _ _ (comment-Alike eof cs w v r) (read _ cs w v r)

  spelled-Alike :
      (eof : Bool) (cs : List ℕ) (w v : Place)
      → R w v
      → Alike R (spelled eof cs w) (spelled eof cs v)
  unfolding spelled
  spelled-Alike eof cs w v r =
      let p = λ (c : ℕ). wordchar c || digit c in
      closed-Alike eof _ _ (
        after-Spans (λ t ds x. encode_all t >>= (λ text. ok (text, (ds, x)))) (span p cs w)
          (span p cs v) (span-Spans p cs w v r)
          (λ t ds x y s. bind-Alike (encode_all t) _ _ (λ text. read text ds x y s)))

  word-Alike :
      (eof : Bool) (cs : List ℕ) (w v : Place) → R w v → Alike R (word eof cs w) (word eof cs v)
  unfolding word
  word-Alike eof cs w v r =
      then-Alike _ _ _ (spelled-Alike eof cs w v r)
        (λ text ds x y s. bind-Alike (canonical text) _ _ (λ name. named-Alike eof name ds x y s))

  symbol-Alike :
      (eof : Bool) (c : ℕ) (cs : List ℕ) (w v : Place)
      → R w v
      → Alike R (symbol eof c cs w) (symbol eof c cs v)
  unfolding symbol
  symbol-Alike eof c [] w v r =
      if-Alike (not eof && may_join c) _ _ _ _ (thrown need_input) (read _ [] w v r)
  symbol-Alike eof c (d ∷ cs) w v r =
      if-Alike (is_pair (c % 256) (d % 256)) _ _ _ _
        (read _ cs (moved d w) (moved d v) (step d w v r)) (read _ (d ∷ cs) w v r)

  pub round-Alike :
      (eof : Bool) (c : ℕ) (cs : List ℕ) (w v : Place)
      → R w v
      → Alike R (round eof c cs w) (round eof c cs v)
  unfolding round
  round-Alike eof c cs w v r =
      let next = step c w v r in
      if-Alike (blank c) _ _ _ _ (read none cs (moved c w) (moved c v) next) (
        if-Alike (c == b'_') _ _ _ _
          (found-Alike _ _ (character-Alike eof cs (moved c w) (moved c v) next))
          (if-Alike (c == 39) _ _ _ _
            (found-Alike _ _ (quoted-Alike 39 TokenKind.string eof cs (moved c w) (moved c v) next))
            (if-Alike (c == 34) _ _ _ _
              (found-Alike _ _
                (quoted-Alike 34 TokenKind.quoted eof cs (moved c w) (moved c v) next))
              (if-Alike (digit c || (c == b'.' && starts_digit cs)) _ _ _ _
                (found-Alike _ _ (number-Alike eof (c ∷ cs) w v r))
                (if-Alike (wordchar c) _ _ _ _ (word-Alike eof (c ∷ cs) w v r)
                  (found-Alike _ _ (symbol-Alike eof c cs (moved c w) (moved c v) next)))))))
