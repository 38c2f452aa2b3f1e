-- ===== src/Tokenizer/Stable.antt =====
-- A round of the tokenizer with more characters behind.
use re_poplan.Prelude.{
  ℕ, ◌%◌, ◌<◌, ◌≡◌, refl, ap, arith, Bool, true, false, not, ◌&&◌, ◌||◌, List, [], ◌∷◌, ◌++◌,
  Option, none, some, ◌==◌, if◌then◌else◌, Bool-cases, inl, inr,
}
use re_poplan.Value.{Result, ok, err, ◌>>=◌, need_input, Result-cases}
use re_poplan.Utf8.{encode, encode_all}
use re_poplan.Names.{canonical}
use re_poplan.State.{Text, text_eq, TokenKind}
use re_poplan.Tokenizer.{
  character, quoted_text, quoted, prefixed, comment_name, pass_semicolon, comment, spelled, named,
  word, may_join, is_pair, symbol_of, symbol, found, starts_digit, blank, round,
}
use re_poplan.Tokenizer.Places.{Place, Cursor, moved, digit, wordchar, span, Lexeme}
use re_poplan.Tokenizer.Number.{number_rest, closed, number}
use re_poplan.Tokenizer.Append.{
  Same, Grows, span-append, Ends, after_span, same-Grows, all-Ends, number_rest-Grows,
  number_rest-Ends,
}

-- Rules for what must leave the rest unread.
pub Same-refl :
    {A : Type 0} (a : A) (cs r : List ℕ) (w : Place)
    → Same (ok (a, (cs, w))) (ok (a, (cs ++ r, w))) r
unfolding Same
Same-refl a cs r w = refl

err-Same : {A : Type 0} (x y : Result (A × Cursor)) (r : List ℕ) → x ≡ err need_input → Same x y r
unfolding Same
err-Same x y r h = rw h tt

if-Same :
    {A : Type 0} (b : Bool) (x x' y y' : Result (A × Cursor)) (r : List ℕ)
    → Same x y r
    → Same x' y' r
    → Same (if b then x else x') (if b then y else y') r
if-Same true x x' y y' r h k = h
if-Same false x x' y y' r h k = k

bind-Same :
    {A B : Type 0} (x : Result A) (f g : A → Result (B × Cursor)) (r : List ℕ)
    → ((a : A) → Same (f a) (g a) r)
    → Same (x >>= f) (x >>= g) r
unfolding Same
bind-Same (err e) f g r h = tt
bind-Same (ok a) f g r h = h a

-- What follows a test for the end of the input.
closed-Same :
    {A B : Type 0} (e : Bool) (x y : Result (A × Cursor)) (f g : A × Cursor → Result (B × Cursor))
    (r : List ℕ)
    → Grows x y r
    → ((a : A) (c : ℕ) (cs : List ℕ) (w : Place)
        → Same (f (a, (c ∷ cs, w))) (g (a, (c ∷ (cs ++ r), w))) r)
    → Same (closed false x >>= f) (closed e y >>= g) r
unfolding Same Grows
closed-Same e (err k) y f g r h a = tt
closed-Same e (ok (x, ([], w))) y f g r h a = tt
closed-Same e (ok (x, (c ∷ cs, w))) y f g r h a = rw h (a x c cs w)

map-Same :
    {A B : Type 0} (f : A → B) (x y : Result (A × Cursor)) (r : List ℕ)
    → Same x y r
    → Same (x >>= λ p. ok (f p.0, p.1)) (y >>= λ p. ok (f p.0, p.1)) r
unfolding Same
map-Same f (err e) y r h = tt
map-Same f (ok (a, (cs, w))) y r h = rw h refl

found-Same : (x y : Result (Lexeme × Cursor)) (r : List ℕ) → Same x y r → Same (found x) (found y) r
unfolding Same
found-Same (err e) y r h = tt
found-Same (ok (a, (cs, w))) y r h = rw h refl

prefixed-Same :
    (t : Text) (x y : Result (Text × Cursor)) (r : List ℕ)
    → Same x y r
    → Same (prefixed t x) (prefixed t y) r
unfolding Same
prefixed-Same t (err e) y r h = tt
prefixed-Same t (ok (a, (cs, w))) y r h = rw h refl

character-Same :
    (e : Bool) (cs r : List ℕ) (w : Place) → Same (character false cs w) (character e (cs ++ r) w) r
unfolding character Same
character-Same e [] r w = tt
character-Same e (c ∷ cs) r w = refl

unclosed_at :
    (x : Result Text) (y : Result (Text × Cursor)) (r : List ℕ)
    → Same (x >>= λ s. err need_input) y r
unfolding Same
unclosed_at (err e) y r = tt
unclosed_at (ok s) y r = tt

needs_more :
    (q c : ℕ) (w : Place)
    → (c == q) ≡ true
    → (q == 39) ≡ true
    → quoted_text q false (c ∷ []) w ≡ err need_input
unfolding quoted_text
needs_more q c w y s = rw (y, s) refl

closes :
    (q c : ℕ) (e : Bool) (r : List ℕ) (w : Place)
    → (c == q) ≡ true
    → (q == 39) ≡ false
    → quoted_text q e (c ∷ r) w ≡ ok ([], (r, moved c w))
unfolding quoted_text
closes q c e [] w y n = rw (y, n) refl
closes q c e (d ∷ r) w y n = rw (y, n) refl

unclosed :
    (q c : ℕ) (w : Place)
    → (c == q) ≡ false
    → (y : Result (Text × Cursor)) (r : List ℕ) → Same (quoted_text q false (c ∷ []) w) y r
unfolding quoted_text
unclosed q c w n y r = rw n (unclosed_at (encode c) y r)

-- The last character of what is there, in a quotation.
last_quoted :
    (q c : ℕ) (e : Bool) (r : List ℕ) (w : Place)
    → Same (quoted_text q false (c ∷ []) w) (quoted_text q e (c ∷ r) w) r
last_quoted q c e r w = elim (Bool-cases (c == q)) [
  | inl y ↦ elim (Bool-cases (q == 39)) [
    | inl s ↦ err-Same _ _ r (needs_more q c w y s)
    | inr n ↦ rw (closes q c false [] w y n, closes q c e r w y n) (Same-refl [] [] r (moved c w))
  ]
  | inr n ↦ unclosed q c w n _ r
]

quoted_text-Same :
    (q : ℕ) (e : Bool) (cs r : List ℕ) (w : Place)
    → Same (quoted_text q false cs w) (quoted_text q e (cs ++ r) w) r
unfolding quoted_text
quoted_text-Same q e [] r w = err-Same _ _ r refl
quoted_text-Same q e (c ∷ []) r w = last_quoted q c e r w
quoted_text-Same q e (c ∷ d ∷ cs) r w =
    if-Same (c == q) _ _ _ _ r
      (if-Same (q == 39 && d == q) _ _ _ _ r
        (prefixed-Same (39 ∷ []) _ _ r (quoted_text-Same q e cs r (moved d (moved c w))))
        (Same-refl [] (d ∷ cs) r (moved c w)))
      (bind-Same (encode c) _ _ r
        (λ s. prefixed-Same s _ _ r (quoted_text-Same q e (d ∷ cs) r (moved c w))))

quoted-Same :
    (q : ℕ) (k : TokenKind) (e : Bool) (cs r : List ℕ) (w : Place)
    → Same (quoted q k false cs w) (quoted q k e (cs ++ r) w) r
unfolding quoted
quoted-Same q k e cs r w =
    map-Same (λ text. (k, text, none)) (quoted_text q false cs w) (quoted_text q e (cs ++ r) w) r
      (quoted_text-Same q e cs r w)

number-Same :
    (e : Bool) (cs r : List ℕ) (w : Place) → Same (number false cs w) (number e (cs ++ r) w) r
unfolding number
number-Same e cs r w =
    closed-Same e _ _ _ _ r
      (after_span (λ t k. number_rest false t k.0 k.1) (λ t k. number_rest e t k.0 k.1)
        (span digit cs w) (span digit (cs ++ r) w) r (span-append digit cs r w) number_rest-Ends
        (λ t ds c v. number_rest-Grows e t (c ∷ ds) r v))
      (λ t c ds v. Same-refl (TokenKind.number, t, none) (c ∷ ds) r v)

span-Grows :
    (p : ℕ → Bool) (cs r : List ℕ) (w : Place)
    → Grows (ok (span p cs w)) (ok (span p (cs ++ r) w)) r
span-Grows p cs r w =
    after_span (λ t k. ok (t, k)) (λ t k. ok (t, k)) (span p cs w) (span p (cs ++ r) w) r
      (span-append p cs r w) all-Ends (λ t ds c v. same-Grows t c ds r v)

comment-Same :
    (e : Bool) (cs r : List ℕ) (w : Place) → Same (comment false cs w) (comment e (cs ++ r) w) r
unfolding comment pass_semicolon
comment-Same e cs r w =
    closed-Same e _ _ _ _ r (span-Grows (λ c. not (c == b';')) cs r w)
      (λ t c ds v. Same-refl none ds r (moved c v))

named-Same :
    (e : Bool) (name : Text) (cs r : List ℕ) (w : Place)
    → Same (named false name (cs, w)) (named e name (cs ++ r, w)) r
unfolding named
named-Same e name cs r w =
    if-Same (text_eq name comment_name) _ _ _ _ r (comment-Same e cs r w)
      (Same-refl (some (TokenKind.word, name, none)) cs r w)

spelled_at : Text → Cursor → Result (Text × Cursor)
spelled_at chars k = do text ← encode_all chars; ok (text, k)

spelled_at-Ends : (t : Text) (w : Place) → Ends (spelled_at t ([], w))
unfolding spelled_at Ends
spelled_at-Ends t w = elim (Result-cases (encode_all t)) [
  | inl (s, e) ↦ rw e tt
  | inr (k, e) ↦ rw e tt
]

spelled_at-Grows :
    (r t cs : Text) (c : ℕ) (w : Place)
    → Grows (spelled_at t (c ∷ cs, w)) (spelled_at t (c ∷ (cs ++ r), w)) r
unfolding spelled_at Grows
spelled_at-Grows r t cs c w = elim (Result-cases (encode_all t)) [
  | inl (s, e) ↦ rw e refl
  | inr (k, e) ↦ rw e tt
]

word-Same : (e : Bool) (cs r : List ℕ) (w : Place) → Same (word false cs w) (word e (cs ++ r) w) r
unfolding word spelled spelled_at
word-Same e cs r w =
    let p = λ (c : ℕ). wordchar c || digit c in
    closed-Same e _ _ _ _ r
      (after_span spelled_at spelled_at (span p cs w) (span p (cs ++ r) w) r (span-append p cs r w)
        spelled_at-Ends (spelled_at-Grows r))
      (λ t c ds v. bind-Same (canonical t) _ _ r (λ name. named-Same e name (c ∷ ds) r v))

-- A character below 128 that may not join another starts no symbol of two.
single : (c d : ℕ) → c < 128 → may_join c ≡ false → is_pair (c % 256) (d % 256) ≡ false
single c d l h = let e : c % 256 ≡ c = omega arith in rw e (ground arith)

may_join_waits : (c : ℕ) (w : Place) → may_join c ≡ true → symbol false c [] w ≡ err need_input
unfolding symbol
may_join_waits c w h = rw h refl

alone :
    (c : ℕ) (e : Bool) (r : List ℕ) (w : Place)
    → c < 128
    → may_join c ≡ false
    → symbol e c r w ≡ ok (symbol_of ((c % 256) ∷ []), (r, w))
unfolding symbol
alone c true [] w l h = refl
alone c false [] w l h = rw h refl
alone c true (d ∷ r) w l h = rw (single c d l h) refl
alone c false (d ∷ r) w l h = rw (single c d l h) refl

symbol-Same :
    (e : Bool) (c : ℕ) (cs r : List ℕ) (w : Place)
    → c < 128
    → Same (symbol false c cs w) (symbol e c (cs ++ r) w) r
unfolding symbol
symbol-Same e c [] r w l = elim (Bool-cases (may_join c)) [
  | inl y ↦ err-Same _ _ r (may_join_waits c w y)
  | inr n ↦
      rw (alone c false [] w l n, alone c e r w l n) (Same-refl (symbol_of ((c % 256) ∷ [])) [] r w)
]
symbol-Same e c (d ∷ cs) r w l =
    if-Same (is_pair (c % 256) (d % 256)) _ _ _ _ r
      (Same-refl (symbol_of ((c % 256) ∷ (d % 256) ∷ [])) cs r (moved d w))
      (Same-refl (symbol_of ((c % 256) ∷ [])) (d ∷ cs) r w)

small : (c : ℕ) → wordchar c ≡ false → c < 128
small c h = ground arith

-- What is neither quoted nor a number.
abbrev plain : Bool → ℕ → List ℕ → Place → Result (Option Lexeme × Cursor)
plain eof c cs w = if wordchar c then word eof (c ∷ cs) w else found (symbol eof c cs (moved c w))

plain-Same :
    (e : Bool) (c : ℕ) (cs r : List ℕ) (w : Place)
    → Same (plain false c cs w) (plain e c (cs ++ r) w) r
plain-Same e c cs r w = elim (Bool-cases (wordchar c)) [
  | inl y ↦ rw y (word-Same e (c ∷ cs) r w)
  | inr n ↦ rw n (found-Same _ _ r (symbol-Same e c cs r (moved c w) (small c n)))
]

abbrev is_number : ℕ → List ℕ → Bool
is_number c cs = digit c || (c == b'.' && starts_digit cs)

point_waits : (c : ℕ) (w : Place) → (c == b'.') ≡ true → plain false c [] w ≡ err need_input
point_waits c w h =
    let e : c ≡ b'.' = ground arith in rw e (ap found (may_join_waits b'.' (moved b'.' w) refl))

unquoted-Same :
    (e : Bool) (c : ℕ) (cs r : List ℕ) (w : Place)
    → Same
        (if is_number c cs then found (number false (c ∷ cs) w) else plain false c cs w)
        (if is_number c (cs ++ r)
          then found (number e (c ∷ (cs ++ r)) w)
          else plain e c (cs ++ r) w)
        r
unquoted-Same e c (d ∷ cs) r w =
    if-Same (is_number c (d ∷ cs)) _ _ _ _ r (found-Same _ _ r (number-Same e (c ∷ d ∷ cs) r w))
      (plain-Same e c (d ∷ cs) r w)
unquoted-Same e c [] r w = elim (Bool-cases (digit c)) [
  | inl y ↦ rw y (found-Same _ _ r (number-Same e (c ∷ []) r w))
  | inr n ↦ elim (Bool-cases (c == b'.')) [
    | inl p ↦ err-Same _ _ r (rw (n, p) (point_waits c w p))
    | inr m ↦ rw (n, m) (plain-Same e c [] r w)
  ]
]

-- What a round reads where more may come, it reads with more behind, and leaves that unread.
pub round-append :
    (e : Bool) (c : ℕ) (cs r : List ℕ) (w : Place)
    → Same (round false c cs w) (round e c (cs ++ r) w) r
unfolding round
round-append e c cs r w = if-Same (blank c) _ _ _ _ r (Same-refl none cs r (moved c w)) (
    if-Same (c == b'_') _ _ _ _ r (found-Same _ _ r (character-Same e cs r (moved c w))) (
      if-Same (c == 39) _ _ _ _ r
        (found-Same _ _ r (quoted-Same 39 TokenKind.string e cs r (moved c w)))
        (if-Same (c == 34) _ _ _ _ r
          (found-Same _ _ r (quoted-Same 34 TokenKind.quoted e cs r (moved c w)))
          (unquoted-Same e c cs r w))))
