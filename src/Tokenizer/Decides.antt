-- ===== src/Tokenizer/Decides.antt =====
-- What a round of the tokenizer may throw.
use Prim.Native.String.{String}
use re_poplan.Prelude.{
  ℕ, zero, suc, ◌%◌, ◌≡◌, ◌∙◌, refl, Bool, true, false, not, ◌&&◌, ◌||◌, List, [], ◌∷◌, ◌++◌,
  Option, none, some, ltb, ◌==◌, if◌then◌else◌,
}
use re_poplan.Value.{Result, ok, err, ◌>>=◌, fault, need_input, need_list, out_of_range, >>=-eq-ok}
use re_poplan.Utf8.{invalid_scalar, encode, encode_all}
use re_poplan.Utf8.RoundTrip.{decode-encode_all}
use re_poplan.Names.{canonical, folded}
use re_poplan.State.{Text, text_eq, TokenKind, Token}
use re_poplan.Tokenizer.{
  character, quoted_text, quoted, prefixed, comment_name, comment, spelled, named, word, may_join,
  is_pair, symbol, found, starts_digit, blank, round, Tokens, with_token, token_at, is_full,
  going_on, tokens_from,
}
use re_poplan.Tokenizer.Places.{Place, Cursor, moved, digit, wordchar, span, missing, Lexeme}
use re_poplan.Tokenizer.Number.{
  exponent_of_digits, exponent_digits, exponent_sign, exponent, fraction_digits, fraction,
  radix_digits, is_radix, number_rest, closed, number,
}

-- Nothing but a fault is thrown, or a need of input where this may not be the end of the source.
unfoldable pub Decides {ℓ} : {A : Type ℓ} → Bool → Result A → Type 0
Decides eof (ok a) = Unit
Decides eof (err (fault m)) = Unit
Decides eof (err need_input) = eof ≡ false
Decides eof (err (need_list v)) = ⊥
Decides eof (err out_of_range) = ⊥

done : {A : Type 0} (eof : Bool) (a : A) → Decides eof (ok a)
unfolding Decides
done eof a = tt

missing-Decides : (A : Type 0) (eof : Bool) (t : String) → Decides {A = A} eof (missing eof t)
unfolding Decides
missing-Decides A true t = tt
missing-Decides A false t = refl

if-Decides :
    {A : Type 0} (eof b : Bool) (x y : Result A)
    → Decides eof x
    → Decides eof y
    → Decides eof (if b then x else y)
if-Decides eof true x y h k = h
if-Decides eof false x y h k = k

-- Where more input is asked for only if this is not the end.
waits-Decides :
    {A : Type 0} (eof b : Bool) (y : Result A)
    → Decides eof y
    → Decides eof (if not eof && b then err need_input else y)
unfolding Decides
waits-Decides true b y h = h
waits-Decides false true y h = refl
waits-Decides false false y h = h

bind-Decides :
    {A B : Type 0} (eof : Bool) (x : Result A) (f : A → Result B)
    → Decides eof x
    → ((a : A) → Decides eof (f a))
    → Decides eof (x >>= f)
unfolding Decides
bind-Decides eof (ok a) f h k = k a
bind-Decides eof (err (fault m)) f h k = tt
bind-Decides eof (err need_input) f h k = h
bind-Decides eof (err (need_list v)) f h k = h
bind-Decides eof (err out_of_range) f h k = h

closed-Decides :
    {A : Type 0} (eof : Bool) (x : Result (A × Cursor)) → Decides eof x → Decides eof (closed eof x)
unfolding Decides
closed-Decides true (ok (a, ([], w))) h = tt
closed-Decides false (ok (a, ([], w))) h = refl
closed-Decides eof (ok (a, (c ∷ cs, w))) h = tt
closed-Decides eof (err (fault m)) h = tt
closed-Decides eof (err need_input) h = h
closed-Decides eof (err (need_list v)) h = h
closed-Decides eof (err out_of_range) h = h

found-Decides : (eof : Bool) (x : Result (Lexeme × Cursor)) → Decides eof x → Decides eof (found x)
unfolding Decides
found-Decides eof (ok (a, k)) h = tt
found-Decides eof (err (fault m)) h = tt
found-Decides eof (err need_input) h = h
found-Decides eof (err (need_list v)) h = h
found-Decides eof (err out_of_range) h = h

prefixed-Decides :
    (eof : Bool) (t : Text) (x : Result (Text × Cursor))
    → Decides eof x
    → Decides eof (prefixed t x)
unfolding Decides
prefixed-Decides eof t (ok (a, k)) h = tt
prefixed-Decides eof t (err (fault m)) h = tt
prefixed-Decides eof t (err need_input) h = h
prefixed-Decides eof t (err (need_list v)) h = h
prefixed-Decides eof t (err out_of_range) h = h

encode-Decides : (eof : Bool) (c : ℕ) → Decides eof (encode c)
unfolding Decides encode
encode-Decides eof c = if-Decides eof (invalid_scalar c) _ _ tt (
    if-Decides eof (ltb c 0x80) _ _ tt
      (if-Decides eof (ltb c 0x800) _ _ tt (if-Decides eof (ltb c 0x10000) _ _ tt tt)))

encode_all-Decides : (eof : Bool) (cs : List ℕ) → Decides eof (encode_all cs)
unfolding encode_all
encode_all-Decides eof [] = done eof []
encode_all-Decides eof (c ∷ cs) =
    bind-Decides eof (encode c) _ (encode-Decides eof c)
      (λ s. bind-Decides eof (encode_all cs) _ (encode_all-Decides eof cs) (λ t. done eof (s ++ t)))

character-Decides : (eof : Bool) (cs : List ℕ) (w : Place) → Decides eof (character eof cs w)
unfolding character Decides
character-Decides eof [] w = missing-Decides _ eof _
character-Decides eof (c ∷ cs) w = tt

doubled-Decides :
    (eof b : Bool) (k : Text × Cursor) → Decides eof (if b && not eof then err need_input else ok k)
unfolding Decides
doubled-Decides true true k = tt
doubled-Decides true false k = tt
doubled-Decides false true k = refl
doubled-Decides false false k = tt

quoted_text-Decides :
    (q : ℕ) (eof : Bool) (cs : List ℕ) (w : Place) → Decides eof (quoted_text q eof cs w)
unfolding quoted_text
quoted_text-Decides q eof [] w = missing-Decides _ eof _
quoted_text-Decides q eof (c ∷ []) w =
    if-Decides eof (c == q) _ _ (doubled-Decides eof (q == 39) ([], ([], moved c w)))
      (bind-Decides eof (encode c) _ (encode-Decides eof c) (λ s. missing-Decides _ eof _))
quoted_text-Decides q eof (c ∷ d ∷ cs) w =
    if-Decides eof (c == q) _ _
      (if-Decides eof (q == 39 && d == q) _ _
        (prefixed-Decides eof (39 ∷ []) _ (quoted_text-Decides q eof cs (moved d (moved c w))))
        (done eof ([], (d ∷ cs, moved c w))))
      (bind-Decides eof (encode c) _ (encode-Decides eof c)
        (λ s. prefixed-Decides eof s _ (quoted_text-Decides q eof (d ∷ cs) (moved c w))))

quoted-Decides :
    (q : ℕ) (k : TokenKind) (eof : Bool) (cs : List ℕ) (w : Place)
    → Decides eof (quoted q k eof cs w)
unfolding quoted
quoted-Decides q k eof cs w =
    bind-Decides eof (quoted_text q eof cs w) _ (quoted_text-Decides q eof cs w)
      (λ (text, k₁). done eof _)

of_digits-Decides :
    (eof : Bool) (text ds : List ℕ) (k : Cursor) → Decides eof (exponent_of_digits eof text ds k)
unfolding exponent_of_digits
of_digits-Decides eof text [] k = missing-Decides _ eof _
of_digits-Decides eof text (d ∷ ds) k = done eof _

exponent_digits-Decides :
    (eof : Bool) (text cs : List ℕ) (w : Place) → Decides eof (exponent_digits eof text cs w)
unfolding exponent_digits
exponent_digits-Decides eof text cs w = of_digits-Decides eof text _ _

exponent_sign-Decides :
    (eof : Bool) (text cs : List ℕ) (w : Place) → Decides eof (exponent_sign eof text cs w)
unfolding exponent_sign
exponent_sign-Decides eof text [] w = exponent_digits-Decides eof text [] w
exponent_sign-Decides eof text (c ∷ cs) w =
    if-Decides eof (c == b'+' || c == b'-') _ _ (exponent_digits-Decides eof _ cs (moved c w))
      (exponent_digits-Decides eof text (c ∷ cs) w)

exponent-Decides :
    (eof : Bool) (text cs : List ℕ) (w : Place) → Decides eof (exponent eof text cs w)
unfolding exponent
exponent-Decides eof text [] w = done eof _
exponent-Decides eof text (c ∷ cs) w =
    if-Decides eof (c == b'$' || c == b'&') _ _ (exponent_sign-Decides eof _ cs (moved c w))
      (done eof _)

fraction_digits-Decides :
    (eof : Bool) (text cs : List ℕ) (w : Place) → Decides eof (fraction_digits eof text cs w)
unfolding fraction_digits
fraction_digits-Decides eof text cs w =
    exponent-Decides eof (text ++ b'.' ∷ (span digit cs w).0) (span digit cs w).1.0
      (span digit cs w).1.1

fraction-Decides :
    (eof : Bool) (text cs : List ℕ) (w : Place) → Decides eof (fraction eof text cs w)
unfolding fraction
fraction-Decides eof text [] w = exponent-Decides eof text [] w
fraction-Decides eof text (c ∷ []) w =
    waits-Decides eof (c == b'.') _ (exponent-Decides eof text (c ∷ []) w)
fraction-Decides eof text (c ∷ d ∷ cs) w =
    if-Decides eof (c == b'.' && digit d) _ _
      (fraction_digits-Decides eof text (d ∷ cs) (moved c w))
      (exponent-Decides eof text (c ∷ d ∷ cs) w)

number_rest-Decides :
    (eof : Bool) (text cs : List ℕ) (w : Place) → Decides eof (number_rest eof text cs w)
unfolding number_rest radix_digits
number_rest-Decides eof text [] w = fraction-Decides eof text [] w
number_rest-Decides eof text (c ∷ cs) w =
    if-Decides eof (c == b':' && is_radix text) _ _ (done eof _)
      (fraction-Decides eof text (c ∷ cs) w)

number-Decides : (eof : Bool) (cs : List ℕ) (w : Place) → Decides eof (number eof cs w)
unfolding number
number-Decides eof cs w =
    bind-Decides eof _ _
      (closed-Decides eof _
        (number_rest-Decides eof (span digit cs w).0 (span digit cs w).1.0 (span digit cs w).1.1))
      (λ (text, k). done eof ((TokenKind.number, text, none), k))

comment-Decides : (eof : Bool) (cs : List ℕ) (w : Place) → Decides eof (comment eof cs w)
unfolding comment
comment-Decides eof cs w =
    bind-Decides eof _ _ (closed-Decides eof _ (done eof _)) (λ (t, k). done eof _)

named-Decides : (eof : Bool) (name : Text) (k : Cursor) → Decides eof (named eof name k)
unfolding named
named-Decides eof name (cs, w) =
    if-Decides eof (text_eq name comment_name) _ _ (comment-Decides eof cs w) (done eof _)

closed-eq-ok :
    {A : Type 0} (eof : Bool) (x : Result (A × Cursor)) (y : A × Cursor)
    → closed eof x ≡ ok y
    → x ≡ ok y
closed-eq-ok true (ok (a, ([], w))) y h = h
closed-eq-ok false (ok (a, ([], w))) y h = absurd (cc h)
closed-eq-ok eof (ok (a, (c ∷ cs, w))) y h = h
closed-eq-ok eof (err e) y h = absurd (cc h)

-- The text of a word is the encoding of its characters.
spelled-eq-ok :
    (eof : Bool) (cs : List ℕ) (w : Place) (text : Text) (k : Cursor)
    → spelled eof cs w ≡ ok (text, k)
    → (chars : List ℕ) × (encode_all chars ≡ ok text)
unfolding spelled
spelled-eq-ok eof cs w text k h =
    let (t, e, same) =
      >>=-eq-ok (encode_all (span (λ c. wordchar c || digit c) cs w).0) _
        (closed-eq-ok eof _ (text, k) h) in
    (_, e ∙ cc same)

canonical-Decides :
    (eof : Bool) (chars text : List ℕ) → encode_all chars ≡ ok text → Decides eof (canonical text)
unfolding canonical
canonical-Decides eof chars text h =
    rw (decode-encode_all chars text h) (encode_all-Decides eof (folded chars))

spelled-Decides : (eof : Bool) (cs : List ℕ) (w : Place) → Decides eof (spelled eof cs w)
unfolding spelled
spelled-Decides eof cs w = closed-Decides eof _ (
    bind-Decides eof _ _ (encode_all-Decides eof (span (λ c. wordchar c || digit c) cs w).0)
      (λ t. done eof _))

after-Decides :
    {A B : Type 0} (eof : Bool) (x : Result A) (f : A → Result B)
    → Decides eof x
    → ((a : A) → x ≡ ok a → Decides eof (f a))
    → Decides eof (x >>= f)
unfolding Decides
after-Decides eof (ok a) f h k = k a refl
after-Decides eof (err (fault m)) f h k = tt
after-Decides eof (err need_input) f h k = h
after-Decides eof (err (need_list v)) f h k = h
after-Decides eof (err out_of_range) f h k = h

word-Decides : (eof : Bool) (cs : List ℕ) (w : Place) → Decides eof (word eof cs w)
unfolding word
word-Decides eof cs w =
    after-Decides eof (spelled eof cs w) _ (spelled-Decides eof cs w) (λ (text, k) e.
      let (chars, es) = spelled-eq-ok eof cs w text k e in
      bind-Decides eof (canonical text) _ (canonical-Decides eof chars text es)
        (λ name. named-Decides eof name k))

symbol-Decides : (eof : Bool) (c : ℕ) (cs : List ℕ) (w : Place) → Decides eof (symbol eof c cs w)
unfolding symbol
symbol-Decides eof c [] w = waits-Decides eof (may_join c) _ (done eof _)
symbol-Decides eof c (d ∷ cs) w =
    if-Decides eof (is_pair (c % 256) (d % 256)) _ _ (done eof _) (done eof _)

round-Decides : (eof : Bool) (c : ℕ) (cs : List ℕ) (w : Place) → Decides eof (round eof c cs w)
unfolding round
round-Decides eof c cs w = if-Decides eof (blank c) _ _ (done eof _) (
    if-Decides eof (c == b'_') _ _ (found-Decides eof _ (character-Decides eof cs (moved c w))) (
      if-Decides eof (c == 39) _ _
        (found-Decides eof _ (quoted-Decides 39 TokenKind.string eof cs (moved c w)))
        (if-Decides eof (c == 34) _ _
          (found-Decides eof _ (quoted-Decides 34 TokenKind.quoted eof cs (moved c w)))
          (if-Decides eof (digit c || (c == b'.' && starts_digit cs)) _ _
            (found-Decides eof _ (number-Decides eof (c ∷ cs) w))
            (if-Decides eof (wordchar c) _ _ (word-Decides eof (c ∷ cs) w)
              (found-Decides eof _ (symbol-Decides eof c cs (moved c w))))))))

with_token-Decides :
    (eof : Bool) (t : Token) (x : Result Tokens) → Decides eof x → Decides eof (with_token t x)
unfolding Decides
with_token-Decides eof t (ok (ts, k)) h = tt
with_token-Decides eof t (err (fault m)) h = tt
with_token-Decides eof t (err need_input) h = h
with_token-Decides eof t (err (need_list v)) h = h
with_token-Decides eof t (err out_of_range) h = h

going_on-Decides :
    (eof : Bool) (more : ℕ → List ℕ → Place → Result Tokens) (name : Text) (limit size : ℕ)
    (w : Place) (x : Option Lexeme × Cursor)
    → ((s : ℕ) (rest : List ℕ) (v : Place) → Decides eof (more s rest v))
    → Decides eof (going_on more name limit size w x)
going_on-Decides eof more name limit size w (none, (rest, v)) h = h size rest v
going_on-Decides eof more name limit size w (some x, (rest, v)) h =
    if-Decides eof (is_full limit (suc size)) _ _ (done eof _)
      (with_token-Decides eof (token_at name w x) _ (h (suc size) rest v))

pub tokens_from-Decides :
    (f : ℕ) (eof : Bool) (name : Text) (limit size : ℕ) (cs : List ℕ) (w : Place)
    → Decides eof (tokens_from f eof name limit size cs w)
unfolding tokens_from
tokens_from-Decides f eof name limit size [] w = done eof _
tokens_from-Decides zero eof name limit size (c ∷ cs) w = done eof _
tokens_from-Decides (suc f) eof name limit size (c ∷ cs) w =
    bind-Decides eof (round eof c cs w) _ (round-Decides eof c cs w) (λ x.
      going_on-Decides eof (tokens_from f eof name limit) name limit size w x
        (λ s rest v. tokens_from-Decides f eof name limit s rest v))
