-- ===== src/Reader/Placed.antt =====
-- Tokens with places counted from the start of the source.
use re_poplan.Prelude.{
  ℕ, zero, suc, ◌≡◌, ◌∙◌, refl, sym, ap, Bool, List, [], ◌∷◌, Option, none, some, map, Bool-cases,
  inl, inr,
}
use re_poplan.Value.{Result, ok, err, ◌>>=◌}
use re_poplan.State.{Text, Token, Location}
use re_poplan.Tokenizer.{round, token_at, Tokens, with_token, is_full, going_on, tokens_from}
use re_poplan.Tokenizer.Places.{Place, Cursor, moved, Lexeme}
use re_poplan.Tokenizer.Alike.{Alike, thrown, read, round-Alike}
use re_poplan.Reader.{place_of, shifted, shifted_token}
use re_poplan.Reader.Walk.{Counts, shifted-moved, moved-Counts}

unfoldable pub shifted_tokens : Location → Result Tokens → Result Tokens
unfolding shifted_token
shifted_tokens l (err e) = err e
shifted_tokens l (ok (ts, (cs, w))) = ok (map (shifted_token l) ts, (cs, shifted l w))

-- A place, and the same place with `l` for the start.
abbrev Shifts : Location → Place → Place → Type 0
Shifts l w v = (v ≡ shifted l w) × Counts w

moved-Shifts :
    (l : Location)
    → Counts (place_of l)
    → (c : ℕ) (w v : Place) → Shifts l w v
    → Shifts l (moved c w) (moved c v)
moved-Shifts l k c w v (e, h) = (ap (moved c) e ∙ sym (shifted-moved l c w h k), moved-Counts c w h)

with_token-shifted :
    (l : Location) (t : Token) (x : Result Tokens)
    → with_token (shifted_token l t) (shifted_tokens l x) ≡ shifted_tokens l (with_token t x)
unfolding shifted_tokens
with_token-shifted l t (err e) = refl
with_token-shifted l t (ok (ts, k)) = refl

token_at-shifted :
    (l : Location) (name : Text) (w : Place) (x : Lexeme)
    → token_at name (shifted l w) x ≡ shifted_token l (token_at name w x)
unfolding shifted_token
token_at-shifted l name w x = refl

going_on-shifted :
    (l : Location) (more : ℕ → List ℕ → Place → Result Tokens) (name : Text) (limit size : ℕ)
    (w : Place) (x y : Result (Option Lexeme × Cursor))
    → Alike (Shifts l) x y
    → ((s : ℕ) (rest : List ℕ) (u : Place)
        → Counts u
        → more s rest (shifted l u) ≡ shifted_tokens l (more s rest u))
    → (y >>= going_on more name limit size (shifted l w))
      ≡ shifted_tokens l (x >>= going_on more name limit size w)
unfolding shifted_tokens
going_on-shifted l more name limit size w _ _ (thrown e) h = refl
going_on-shifted l more name limit size w _ _ (read none rest u v (e, k)) h = rw e (h size rest u k)
going_on-shifted l more name limit size w _ _ (read (some x) rest u v (e, k)) h =
    elim (Bool-cases (is_full limit (suc size))) [
      | inl y ↦ rw (y, e) refl
      | inr n ↦
          rw (n, e, h (suc size) rest u k)
            (with_token-shifted l (token_at name w x) (more (suc size) rest u))
    ]

pub tokens_from-shifted :
    (l : Location) (f : ℕ) (eof : Bool) (name : Text) (limit size : ℕ) (cs : List ℕ) (w : Place)
    → Counts (place_of l)
    → Counts w
    → tokens_from f eof name limit size cs (shifted l w)
      ≡ shifted_tokens l (tokens_from f eof name limit size cs w)
unfolding tokens_from shifted_tokens
tokens_from-shifted l f eof name limit size [] w k h = refl
tokens_from-shifted l zero eof name limit size (c ∷ cs) w k h = refl
tokens_from-shifted l (suc f) eof name limit size (c ∷ cs) w k h =
    going_on-shifted l (tokens_from f eof name limit) name limit size w (round eof c cs w)
      (round eof c cs (shifted l w))
      (round-Alike (Shifts l) (moved-Shifts l k) eof c cs w (shifted l w) (refl, h))
      (λ s rest u q. tokens_from-shifted l f eof name limit s rest u k q)
