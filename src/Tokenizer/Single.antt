-- ===== src/Tokenizer/Single.antt =====
-- The tokenizer with the limit of one token.
use re_poplan.Prelude.{
  ℕ, zero, suc, ◌≤◌, ◌≡◌, ◌∙◌, refl, ap, arith, Bool, List, [], ◌∷◌, Option, none, some, length,
}
use re_poplan.Value.{Result, ok, err, ◌>>=◌}
use re_poplan.State.{Text}
use re_poplan.Tokenizer.{round, token_at, Tokens, with_token, going_on, tokens_from}
use re_poplan.Tokenizer.Places.{Place, Cursor, moved, Lexeme}
use re_poplan.Tokenizer.Progress.{Advances}
use re_poplan.Tokenizer.Progress.Round.{round-Advances}
use re_poplan.Tokenizer.Loop.{Passes-length, with_tokens, tokens_from-fuel, tokens_from-size}

-- The tokens that were read, and then those of what is left.
unfoldable pub then_tokens : Result Tokens → (List ℕ → Place → Result Tokens) → Result Tokens
then_tokens (err e) more = err e
then_tokens (ok (ts, (rest, v))) more = with_tokens ts (more rest v)

going_on_single :
    (f : ℕ) (eof : Bool) (name : Text) (w u : Place) (cs : List ℕ)
    (x : Result (Option Lexeme × Cursor))
    → length cs ≤ f
    → Advances cs u x
    → ((rest : List ℕ) (v : Place)
        → length rest ≤ length cs
        → tokens_from f eof name 0 0 rest v
          ≡ then_tokens
              (tokens_from f eof name 1 0 rest v)
              (λ r k. tokens_from (length r) eof name 0 0 r k))
    → (x >>= going_on (tokens_from f eof name 0) name 0 0 w)
      ≡ then_tokens
          (x >>= going_on (tokens_from f eof name 1) name 1 0 w)
          (λ r k. tokens_from (length r) eof name 0 0 r k)
unfolding Advances then_tokens with_tokens
going_on_single f eof name w u cs (err e) l a h = refl
going_on_single f eof name w u cs (ok (none, (rest, v))) l a h = h rest v (Passes-length a)
going_on_single f eof name w u cs (ok (some x, (rest, v))) l a h =
    ap (with_token (token_at name w x)) (
      tokens_from-fuel f (length rest) eof name 0 1 rest v (omega (arith, Passes-length a))
        (omega arith)
      ∙ tokens_from-size (length rest) eof name 1 0 rest v)

-- Tokenizing without a limit is tokenizing one token and then the rest.
pub tokens_from-then_tokens :
    (f : ℕ) (eof : Bool) (name : Text) (cs : List ℕ) (w : Place)
    → length cs ≤ f
    → tokens_from f eof name 0 0 cs w
      ≡ then_tokens
          (tokens_from f eof name 1 0 cs w)
          (λ r k. tokens_from (length r) eof name 0 0 r k)
unfolding tokens_from then_tokens with_tokens
tokens_from-then_tokens f eof name [] w h = refl
tokens_from-then_tokens zero eof name (c ∷ cs) w h = absurd (omega arith)
tokens_from-then_tokens (suc f) eof name (c ∷ cs) w h =
    going_on_single f eof name w (moved c w) cs (round eof c cs w) (omega arith)
      (round-Advances eof c cs w)
      (λ rest v l. tokens_from-then_tokens f eof name rest v (omega arith))

-- No more than one token.
unfoldable pub IsSingle : Result Tokens → Type 0
IsSingle (err e) = Unit
IsSingle (ok ([], k)) = Unit
IsSingle (ok (t ∷ [], k)) = Unit
IsSingle (ok (t ∷ u ∷ ts, k)) = ⊥

going_on-IsSingle :
    (more : ℕ → List ℕ → Place → Result Tokens) (name : Text) (w : Place)
    (x : Result (Option Lexeme × Cursor))
    → ((rest : List ℕ) (v : Place) → IsSingle (more 0 rest v))
    → IsSingle (x >>= going_on more name 1 0 w)
unfolding IsSingle
going_on-IsSingle more name w (err e) h = tt
going_on-IsSingle more name w (ok (none, (rest, v))) h = h rest v
going_on-IsSingle more name w (ok (some x, (rest, v))) h = tt

pub tokens_from-IsSingle :
    (f : ℕ) (eof : Bool) (name : Text) (cs : List ℕ) (w : Place)
    → IsSingle (tokens_from f eof name 1 0 cs w)
unfolding tokens_from IsSingle
tokens_from-IsSingle f eof name [] w = tt
tokens_from-IsSingle zero eof name (c ∷ cs) w = tt
tokens_from-IsSingle (suc f) eof name (c ∷ cs) w =
    going_on-IsSingle (tokens_from f eof name 1) name w (round eof c cs w)
      (λ rest v. tokens_from-IsSingle f eof name rest v)
