-- ===== src/Tokenizer/Progress/Round.antt =====
-- How far each branch of a round reads.
use re_poplan.Prelude.{
  ℕ, ◌%◌, ◌≡◌, refl, arith, Bool, true, false, not, ◌&&◌, ◌||◌, List, [], ◌∷◌, Option, none, ◌==◌,
  if◌then◌else◌, Bool-cases, inl, inr,
}
use re_poplan.Value.{Result, ok}
use re_poplan.Utf8.{encode, encode_all}
use re_poplan.Names.{canonical}
use re_poplan.State.{text_eq, TokenKind}
use re_poplan.Tokenizer.{
  character, quoted_text, quoted, comment_name, pass_semicolon, comment, spelled, named, word,
  may_join, is_pair, symbol, found, starts_digit, blank, round,
}
use re_poplan.Tokenizer.Places.{Place, Cursor, moved, digit, wordchar, span, Lexeme}
use re_poplan.Tokenizer.Number.{
  exponent_of_digits, exponent_digits, exponent_sign, exponent, fraction_digits, fraction,
  radix_digits, is_radix, number_rest, closed, number,
}
use re_poplan.Tokenizer.Progress.{
  Passes, Passes-refl, Passes-cons, Advances, here, step_over, missing-Advances, waits, if-Advances,
  bind-Advances, then-Advances, closed-Advances, found-Advances, prefixed-Advances, span-Passes,
  from_Passes,
}

character-Advances : (eof : Bool) (cs : List ℕ) (w : Place) → Advances cs w (character eof cs w)
unfolding character
character-Advances eof [] w = missing-Advances _ eof _ [] w
character-Advances eof (c ∷ cs) w = step_over c cs w _ (here _ cs (moved c w))

quoted_text-Advances :
    (q : ℕ) (eof : Bool) (cs : List ℕ) (w : Place) → Advances cs w (quoted_text q eof cs w)
unfolding quoted_text
quoted_text-Advances q eof [] w = missing-Advances _ eof _ [] w
quoted_text-Advances q eof (c ∷ []) w =
    if-Advances (c == q) _ _ (c ∷ []) w
      (if-Advances (q == 39 && not eof) _ _ (c ∷ []) w (waits _ (c ∷ []) w)
        (step_over c [] w _ (here [] [] (moved c w))))
      (bind-Advances (encode c) _ (c ∷ []) w (λ s. missing-Advances _ eof _ (c ∷ []) w))
quoted_text-Advances q eof (c ∷ d ∷ cs) w =
    if-Advances (c == q) _ _ (c ∷ d ∷ cs) w
      (if-Advances (q == 39 && d == q) _ _ (c ∷ d ∷ cs) w
        (prefixed-Advances (39 ∷ []) _ (c ∷ d ∷ cs) w (
          step_over c (d ∷ cs) w _
            (step_over d cs (moved c w) _ (quoted_text-Advances q eof cs (moved d (moved c w))))))
        (step_over c (d ∷ cs) w _ (here [] (d ∷ cs) (moved c w))))
      (bind-Advances (encode c) _ (c ∷ d ∷ cs) w (λ s.
        prefixed-Advances s _ (c ∷ d ∷ cs) w
          (step_over c (d ∷ cs) w _ (quoted_text-Advances q eof (d ∷ cs) (moved c w)))))

quoted-Advances :
    (q : ℕ) (k : TokenKind) (eof : Bool) (cs : List ℕ) (w : Place)
    → Advances cs w (quoted q k eof cs w)
unfolding quoted
quoted-Advances q k eof cs w =
    then-Advances (quoted_text q eof cs w) _ cs w (quoted_text-Advances q eof cs w)
      (λ text rest v. here (k, text, none) rest v)

of_digits-Advances :
    (eof : Bool) (text ds rest : List ℕ) (v : Place)
    → Advances rest v (exponent_of_digits eof text ds (rest, v))
unfolding exponent_of_digits
of_digits-Advances eof text [] rest v = missing-Advances _ eof _ rest v
of_digits-Advances eof text (d ∷ ds) rest v = here _ rest v

exponent_digits-Advances :
    (eof : Bool) (text cs : List ℕ) (w : Place) → Advances cs w (exponent_digits eof text cs w)
unfolding exponent_digits
exponent_digits-Advances eof text cs w =
    from_Passes cs w _ _ _ (span-Passes digit cs w) (of_digits-Advances eof text _ _ _)

exponent_sign-Advances :
    (eof : Bool) (text cs : List ℕ) (w : Place) → Advances cs w (exponent_sign eof text cs w)
unfolding exponent_sign
exponent_sign-Advances eof text [] w = exponent_digits-Advances eof text [] w
exponent_sign-Advances eof text (c ∷ cs) w =
    if-Advances (c == b'+' || c == b'-') _ _ (c ∷ cs) w
      (step_over c cs w _ (exponent_digits-Advances eof _ cs (moved c w)))
      (exponent_digits-Advances eof text (c ∷ cs) w)

exponent-Advances :
    (eof : Bool) (text cs : List ℕ) (w : Place) → Advances cs w (exponent eof text cs w)
unfolding exponent
exponent-Advances eof text [] w = here text [] w
exponent-Advances eof text (c ∷ cs) w =
    if-Advances (c == b'$' || c == b'&') _ _ (c ∷ cs) w
      (step_over c cs w _ (exponent_sign-Advances eof _ cs (moved c w))) (here text (c ∷ cs) w)

fraction_digits-Advances :
    (eof : Bool) (text cs : List ℕ) (w : Place) → Advances cs w (fraction_digits eof text cs w)
unfolding fraction_digits
fraction_digits-Advances eof text cs w =
    from_Passes cs w _ _ _ (span-Passes digit cs w) (exponent-Advances eof _ _ _)

fraction-Advances :
    (eof : Bool) (text cs : List ℕ) (w : Place) → Advances cs w (fraction eof text cs w)
unfolding fraction
fraction-Advances eof text [] w = exponent-Advances eof text [] w
fraction-Advances eof text (c ∷ []) w =
    if-Advances (not eof && c == b'.') _ _ (c ∷ []) w (waits _ (c ∷ []) w)
      (exponent-Advances eof text (c ∷ []) w)
fraction-Advances eof text (c ∷ d ∷ cs) w =
    if-Advances (c == b'.' && digit d) _ _ (c ∷ d ∷ cs) w
      (step_over c (d ∷ cs) w _ (fraction_digits-Advances eof text (d ∷ cs) (moved c w)))
      (exponent-Advances eof text (c ∷ d ∷ cs) w)

radix_digits-Advances : (text cs : List ℕ) (w : Place) → Advances cs w (radix_digits text cs w)
unfolding radix_digits
radix_digits-Advances text cs w = from_Passes cs w _ _ _ (span-Passes digit cs w) (here _ _ _)

number_rest-Advances :
    (eof : Bool) (text cs : List ℕ) (w : Place) → Advances cs w (number_rest eof text cs w)
unfolding number_rest
number_rest-Advances eof text [] w = fraction-Advances eof text [] w
number_rest-Advances eof text (c ∷ cs) w =
    if-Advances (c == b':' && is_radix text) _ _ (c ∷ cs) w
      (step_over c cs w _ (radix_digits-Advances text cs (moved c w)))
      (fraction-Advances eof text (c ∷ cs) w)

pass_semicolon-Passes :
    (cs : List ℕ) (w : Place) → Passes cs w (pass_semicolon cs w).0 (pass_semicolon cs w).1
unfolding pass_semicolon
pass_semicolon-Passes [] w = Passes-refl [] w
pass_semicolon-Passes (c ∷ cs) w = Passes-cons c cs w cs (moved c w) (Passes-refl cs (moved c w))

comment-Advances : (eof : Bool) (cs : List ℕ) (w : Place) → Advances cs w (comment eof cs w)
unfolding comment
comment-Advances eof cs w =
    then-Advances (closed eof (ok (span (λ c. not (c == b';')) cs w))) _ cs w
      (closed-Advances eof _ cs w
        (from_Passes cs w _ _ _ (span-Passes (λ c. not (c == b';')) cs w) (here _ _ _)))
      (λ t rest v. from_Passes rest v _ _ _ (pass_semicolon-Passes rest v) (here _ _ _))

named-Advances :
    (eof : Bool) (name cs : List ℕ) (w : Place) → Advances cs w (named eof name (cs, w))
unfolding named
named-Advances eof name cs w =
    if-Advances (text_eq name comment_name) _ _ cs w (comment-Advances eof cs w) (here _ cs w)

symbol-Advances : (eof : Bool) (c : ℕ) (cs : List ℕ) (w : Place) → Advances cs w (symbol eof c cs w)
unfolding symbol
symbol-Advances eof c [] w =
    if-Advances (not eof && may_join c) _ _ [] w (waits _ [] w) (here _ [] w)
symbol-Advances eof c (d ∷ cs) w =
    if-Advances (is_pair (c % 256) (d % 256)) _ _ (d ∷ cs) w
      (step_over d cs w _ (here _ cs (moved d w))) (here _ (d ∷ cs) w)

-- A span that passes its first character.
span_first :
    (p : ℕ → Bool) (c : ℕ) (cs : List ℕ) (w : Place)
    → p c ≡ true
    → Passes cs (moved c w) (span p (c ∷ cs) w).1.0 (span p (c ∷ cs) w).1.1
unfolding span
span_first p c cs w h = rw h (span-Passes p cs (moved c w))

abbrev is_number : ℕ → List ℕ → Bool
is_number c cs = digit c || (c == b'.' && starts_digit cs)

point_reads :
    (eof : Bool) (c d : ℕ) (cs : List ℕ) (w : Place)
    → digit c ≡ false
    → (c == b'.') ≡ true
    → digit d ≡ true
    → number_rest eof
        (span digit (c ∷ d ∷ cs) w).0
        (span digit (c ∷ d ∷ cs) w).1.0
        (span digit (c ∷ d ∷ cs) w).1.1
      ≡ fraction_digits eof [] (d ∷ cs) (moved c w)
unfolding span number_rest fraction
point_reads eof c d cs w n p e = rw (n, colon, p, e) refl
  where
    colon : (c == b':' && false) ≡ false
    colon = ground arith

point-Advances :
    (eof : Bool) (c : ℕ) (cs : List ℕ) (w : Place)
    → digit c ≡ false
    → is_number c cs ≡ true
    → Advances cs (moved c w) (
        number_rest eof
          (span digit (c ∷ cs) w).0
          (span digit (c ∷ cs) w).1.0
          (span digit (c ∷ cs) w).1.1)
point-Advances eof c [] w n h = absurd (ground arith)
point-Advances eof c (d ∷ cs) w n h =
    let p : (c == b'.') ≡ true = ground arith in
    let e : digit d ≡ true = ground arith in
    rw (point_reads eof c d cs w n p e) (fraction_digits-Advances eof [] (d ∷ cs) (moved c w))

number_text-Advances :
    (eof : Bool) (c : ℕ) (cs : List ℕ) (w : Place)
    → is_number c cs ≡ true
    → Advances cs (moved c w) (
        number_rest eof
          (span digit (c ∷ cs) w).0
          (span digit (c ∷ cs) w).1.0
          (span digit (c ∷ cs) w).1.1)
number_text-Advances eof c cs w h = elim (Bool-cases (digit c)) [
  | inl y ↦
      from_Passes cs (moved c w) _ _ _ (span_first digit c cs w y) (number_rest-Advances eof _ _ _)
  | inr n ↦ point-Advances eof c cs w n h
]

number-Advances :
    (eof : Bool) (c : ℕ) (cs : List ℕ) (w : Place)
    → is_number c cs ≡ true
    → Advances cs (moved c w) (number eof (c ∷ cs) w)
unfolding number
number-Advances eof c cs w h =
    then-Advances _ _ cs (moved c w)
      (closed-Advances eof _ cs (moved c w) (number_text-Advances eof c cs w h))
      (λ t rest v. here _ rest v)

word-Advances :
    (eof : Bool) (c : ℕ) (cs : List ℕ) (w : Place)
    → wordchar c ≡ true
    → Advances cs (moved c w) (word eof (c ∷ cs) w)
unfolding word spelled
word-Advances eof c cs w h =
    let p = λ (x : ℕ). wordchar x || digit x in
    then-Advances _ _ cs (moved c w)
      (closed-Advances eof _ cs (moved c w) (
        from_Passes cs (moved c w) _ _ _ (span_first p c cs w (rw h refl))
          (bind-Advances (encode_all (span p (c ∷ cs) w).0) _ _ _ (λ t. here t _ _))))
      (λ t rest v. bind-Advances (canonical t) _ rest v (λ name. named-Advances eof name rest v))

abbrev plain : Bool → ℕ → List ℕ → Place → Result (Option Lexeme × Cursor)
plain eof c cs w = if wordchar c then word eof (c ∷ cs) w else found (symbol eof c cs (moved c w))

plain-Advances :
    (eof : Bool) (c : ℕ) (cs : List ℕ) (w : Place) → Advances cs (moved c w) (plain eof c cs w)
plain-Advances eof c cs w = elim (Bool-cases (wordchar c)) [
  | inl y ↦ rw y (word-Advances eof c cs w y)
  | inr n ↦ rw n (found-Advances _ cs (moved c w) (symbol-Advances eof c cs (moved c w)))
]

unquoted-Advances :
    (eof : Bool) (c : ℕ) (cs : List ℕ) (w : Place)
    → Advances cs
        (moved c w)
        (if is_number c cs then found (number eof (c ∷ cs) w) else plain eof c cs w)
unquoted-Advances eof c cs w = elim (Bool-cases (is_number c cs)) [
  | inl y ↦ rw y (found-Advances _ cs (moved c w) (number-Advances eof c cs w y))
  | inr n ↦ rw n (plain-Advances eof c cs w)
]

-- A round reads its first character, and comes to the place behind what it reads.
pub round-Advances :
    (eof : Bool) (c : ℕ) (cs : List ℕ) (w : Place) → Advances cs (moved c w) (round eof c cs w)
unfolding round
round-Advances eof c cs w =
    let v = moved c w in
    if-Advances (blank c) _ _ cs v (here none cs v) (
      if-Advances (c == b'_') _ _ cs v (found-Advances _ cs v (character-Advances eof cs v)) (
        if-Advances (c == 39) _ _ cs v
          (found-Advances _ cs v (quoted-Advances 39 TokenKind.string eof cs v))
          (if-Advances (c == 34) _ _ cs v
            (found-Advances _ cs v (quoted-Advances 34 TokenKind.quoted eof cs v))
            (unquoted-Advances eof c cs w))))
