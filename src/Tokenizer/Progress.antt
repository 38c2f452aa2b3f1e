-- ===== src/Tokenizer/Progress.antt =====
-- How far a round of the tokenizer reads, and the place that it comes to.
pub mod Round
use Prim.Native.String.{String}
use re_poplan.Prelude.{
  ℕ, zero, suc, ◌+◌, ◌%◌, ◌<◌, ◌≡◌, ◌∙◌, refl, sym, ap, arith, Bool, true, false, not, ◌&&◌, ◌||◌,
  List, [], ◌∷◌, ◌++◌, Option, none, some, leb, ◌==◌, if◌then◌else◌, Bool-cases, inl, inr,
}
use mathlib.Core.List.{append_assoc}
use re_poplan.Value.{Result, ok, err, ◌>>=◌, need_input, Result-cases}
use re_poplan.Utf8.{encode, encode_all}
use re_poplan.Names.{canonical}
use re_poplan.State.{Text, text_eq, TokenKind}
use re_poplan.Tokenizer.{
  character, quoted_text, quoted, prefixed, comment_name, pass_semicolon, comment, spelled, named,
  word, may_join, is_pair, symbol_of, symbol, found, starts_digit, blank, round,
}
use re_poplan.Tokenizer.Places.{Place, Cursor, moved, digit, wordchar, span, missing, Lexeme}
use re_poplan.Tokenizer.Number.{
  exponent_of_digits, exponent_digits, exponent_sign, exponent, fraction_digits, fraction,
  radix_digits, is_radix, number_rest, closed, number,
}

-- The place behind some characters.
unfoldable pub moved_all : List ℕ → Place → Place
moved_all [] w = w
moved_all (c ∷ cs) w = moved_all cs (moved c w)

-- The characters between two cursors, which the place counts.
pub record Passes (cs : List ℕ) (w : Place) (rest : List ℕ) (v : Place) : Type 0 where
  pub passed : List ℕ
  pub splits : cs ≡ passed ++ rest
  pub place_is : v ≡ moved_all passed w

pub Passes-refl : (cs : List ℕ) (w : Place) → Passes cs w cs w
unfolding moved_all
Passes-refl cs w = record { passed = []; splits = refl; place_is = refl }

pub Passes-cons :
    (c : ℕ) (cs : List ℕ) (w : Place) (rest : List ℕ) (v : Place)
    → Passes cs (moved c w) rest v
    → Passes (c ∷ cs) w rest v
unfolding moved_all
Passes-cons c cs w rest v p = record {
  passed = c ∷ p.passed;
  splits = ap (◌∷◌ c) p.splits;
  place_is = p.place_is;
}

pub moved_all-append :
    (a b : List ℕ) (w : Place) → moved_all (a ++ b) w ≡ moved_all b (moved_all a w)
unfolding moved_all
moved_all-append [] b w = refl
moved_all-append (c ∷ a) b w = moved_all-append a b (moved c w)

pub Passes-trans :
    {a b c : List ℕ} {u v w : Place} → Passes a u b v → Passes b v c w → Passes a u c w
Passes-trans {a} {b} {c} {u} {v} {w} p q = record {
  passed = p.passed ++ q.passed;
  splits = p.splits ∙ ap (◌++◌ p.passed) q.splits ∙ sym (append_assoc p.passed q.passed c);
  place_is =
      q.place_is ∙ ap (moved_all q.passed) p.place_is ∙ sym (moved_all-append p.passed q.passed u);
}

-- Where reading stops, if it does not throw.
unfoldable pub Advances {ℓ} : {A : Type ℓ} → List ℕ → Place → Result (A × Cursor) → Type 0
Advances cs w (err e) = Unit
Advances cs w (ok (a, (rest, v))) = Passes cs w rest v

pub here : {A : Type 0} (a : A) (cs : List ℕ) (w : Place) → Advances cs w (ok (a, (cs, w)))
unfolding Advances
here a cs w = Passes-refl cs w

pub step_over :
    {A : Type 0} (c : ℕ) (cs : List ℕ) (w : Place) (x : Result (A × Cursor))
    → Advances cs (moved c w) x
    → Advances (c ∷ cs) w x
unfolding Advances
step_over c cs w (err e) h = tt
step_over c cs w (ok (a, (rest, v))) h = Passes-cons c cs w rest v h

pub missing-Advances :
    (A : Type 0) (eof : Bool) (t : String) (cs : List ℕ) (w : Place)
    → Advances {A = A} cs w (missing eof t)
unfolding Advances
missing-Advances A true t cs w = tt
missing-Advances A false t cs w = tt

pub waits : (A : Type 0) (cs : List ℕ) (w : Place) → Advances {A = A} cs w (err need_input)
unfolding Advances
waits A cs w = tt

pub if-Advances :
    {A : Type 0} (b : Bool) (x y : Result (A × Cursor)) (cs : List ℕ) (w : Place)
    → Advances cs w x
    → Advances cs w y
    → Advances cs w (if b then x else y)
if-Advances true x y cs w h k = h
if-Advances false x y cs w h k = k

pub bind-Advances :
    {A B : Type 0} (x : Result A) (f : A → Result (B × Cursor)) (cs : List ℕ) (w : Place)
    → ((a : A) → Advances cs w (f a))
    → Advances cs w (x >>= f)
unfolding Advances
bind-Advances (err e) f cs w h = tt
bind-Advances (ok a) f cs w h = h a

pub closed-Advances :
    {A : Type 0} (eof : Bool) (x : Result (A × Cursor)) (cs : List ℕ) (w : Place)
    → Advances cs w x
    → Advances cs w (closed eof x)
unfolding Advances
closed-Advances eof (err e) cs w h = tt
closed-Advances true (ok (a, ([], v))) cs w h = h
closed-Advances false (ok (a, ([], v))) cs w h = tt
closed-Advances eof (ok (a, (c ∷ rest, v))) cs w h = h

pub found-Advances :
    (x : Result (Lexeme × Cursor)) (cs : List ℕ) (w : Place)
    → Advances cs w x
    → Advances cs w (found x)
unfolding Advances
found-Advances (err e) cs w h = tt
found-Advances (ok (a, k)) cs w h = h

pub prefixed-Advances :
    (t : Text) (x : Result (Text × Cursor)) (cs : List ℕ) (w : Place)
    → Advances cs w x
    → Advances cs w (prefixed t x)
unfolding Advances
prefixed-Advances t (err e) cs w h = tt
prefixed-Advances t (ok (a, k)) cs w h = h

pub span-Passes :
    (p : ℕ → Bool) (cs : List ℕ) (w : Place) → Passes cs w (span p cs w).1.0 (span p cs w).1.1
unfolding span
span-Passes p [] w = Passes-refl [] w
span-Passes p (c ∷ cs) w = elim (Bool-cases (p c)) [
  | inl y ↦ rw y (Passes-cons c cs w _ _ (span-Passes p cs (moved c w)))
  | inr n ↦ rw n (Passes-refl (c ∷ cs) w)
]

pub from_Passes :
    {A : Type 0} (cs : List ℕ) (w : Place) (rest : List ℕ) (v : Place) (x : Result (A × Cursor))
    → Passes cs w rest v
    → Advances rest v x
    → Advances cs w x
unfolding Advances
from_Passes cs w rest v (err e) p h = tt
from_Passes cs w rest v (ok (a, k)) p h = Passes-trans p h

pub then-Advances :
    {A B : Type 0} (x : Result (A × Cursor)) (f : A × Cursor → Result (B × Cursor)) (cs : List ℕ)
    (w : Place)
    → Advances cs w x
    → ((a : A) (rest : List ℕ) (v : Place) → Advances rest v (f (a, (rest, v))))
    → Advances cs w (x >>= f)
unfolding Advances
then-Advances (err e) f cs w h k = tt
then-Advances (ok (a, (rest, v))) f cs w h k =
    from_Passes cs w rest v (f (a, (rest, v))) h (k a rest v)
