-- ===== src/Reader/Fronts.antt =====
-- The tokens in front of the end of the input.
use re_poplan.Prelude.{ℕ, ◌≡◌, ◌∙◌, refl, sym, ap, false, List, [], ◌∷◌, ◌++◌, map}
use mathlib.Core.List.{append-nil}
use re_poplan.Value.{ok}
use re_poplan.State.{Location, Token}
use re_poplan.Tokenizer.Places.{Place}
use re_poplan.Tokenizer.Single.{IsSingle}
use re_poplan.Reader.{
  Lexer, consume, is_empty, insert_last, place_last, accepted, advanced, shifted_token,
}

-- The tokens in front of the end.
unfoldable pub before_end : List Token → List Token
before_end [] = []
before_end (e ∷ []) = []
before_end (s ∷ e ∷ ts) = s ∷ before_end (e ∷ ts)

before_end-place_last :
    (l : Location) (ts : List Token) → before_end (place_last l ts) ≡ before_end ts
unfolding before_end place_last
before_end-place_last l [] = refl
before_end-place_last l (e ∷ []) = refl
before_end-place_last l (s ∷ e ∷ []) = refl
before_end-place_last l (s ∷ e ∷ t ∷ ts) = ap (◌∷◌ s) (before_end-place_last l (e ∷ t ∷ ts))

before_end-insert_last :
    (t : Token) (ts : List Token)
    → is_empty ts ≡ false
    → before_end (insert_last t ts) ≡ before_end ts ++ t ∷ []
unfolding before_end insert_last
before_end-insert_last t [] h = absurd (cc h)
before_end-insert_last t (e ∷ []) h = refl
before_end-insert_last t (s ∷ e ∷ []) h = refl
before_end-insert_last t (s ∷ e ∷ u ∷ ts) h =
    ap (◌∷◌ s) (before_end-insert_last t (e ∷ u ∷ ts) refl)

is_empty-place_last :
    (l : Location) (ts : List Token) → is_empty ts ≡ false → is_empty (place_last l ts) ≡ false
unfolding place_last
is_empty-place_last l [] h = h
is_empty-place_last l (e ∷ []) h = refl
is_empty-place_last l (s ∷ e ∷ ts) h = refl

is_empty-insert_last : (t : Token) (ts : List Token) → is_empty (insert_last t ts) ≡ false
unfolding insert_last
is_empty-insert_last t [] = refl
is_empty-insert_last t (e ∷ []) = refl
is_empty-insert_last t (s ∷ e ∷ ts) = refl

pub consume-front :
    (r : Lexer) (us : List Token) (e : Token) (w stop : Place) (rest : List ℕ) (n : ℕ)
    → is_empty r.input ≡ false
    → IsSingle (ok (us, (rest, stop)))
    → before_end (consume r (us ++ e ∷ []) (w, n)).input
      ≡ before_end r.input ++ map (shifted_token r.lex_location) us
unfolding consume accepted IsSingle
consume-front r [] e w stop rest n h k =
    before_end-place_last (advanced r.lex_location w) r.input
    ∙ sym (append-nil (before_end r.input))
consume-front r (t ∷ []) e w stop rest n h k =
    before_end-place_last (advanced r.lex_location w)
      (insert_last (shifted_token r.lex_location t) r.input)
    ∙ before_end-insert_last (shifted_token r.lex_location t) r.input h
consume-front r (t ∷ u ∷ us) e w stop rest n h k = absurd k

pub consume_some_input :
    (r : Lexer) (us : List Token) (e : Token) (w : Place) (n : ℕ)
    → is_empty r.input ≡ false
    → is_empty (consume r (us ++ e ∷ []) (w, n)).input ≡ false
unfolding consume accepted
consume_some_input r [] e w n h = is_empty-place_last (advanced r.lex_location w) r.input h
consume_some_input r (t ∷ []) e w n h =
    is_empty-place_last (advanced r.lex_location w) _
      (is_empty-insert_last (shifted_token r.lex_location t) r.input)
consume_some_input r (t ∷ u ∷ us) e w n h =
    is_empty-place_last (advanced r.lex_location w) _
      (is_empty-insert_last (shifted_token r.lex_location t) r.input)
