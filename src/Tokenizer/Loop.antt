-- ===== src/Tokenizer/Loop.antt =====
-- The loop of the tokenizer: its fuel, and a source that comes in pieces.
use re_poplan.Prelude.{
  ℕ, zero, suc, ◌+◌, ◌≤◌, ◌≡◌, ◌∙◌, refl, sym, arith, Bool, false, List, [], ◌∷◌, ◌++◌, Option,
  none, some, length, length-append,
}
use re_poplan.Value.{Result, ok, err, ◌>>=◌}
use re_poplan.State.{Text, Token}
use re_poplan.Tokenizer.{round, token_at, Tokens, with_token, going_on, tokens_from}
use re_poplan.Tokenizer.Places.{Place, Cursor, moved, Lexeme}
use re_poplan.Tokenizer.Progress.{Passes, Advances}
use re_poplan.Tokenizer.Progress.Round.{round-Advances}
use re_poplan.Tokenizer.Append.{Same}
use re_poplan.Tokenizer.Stable.{round-append}

pub Passes-length : {cs rest : List ℕ} {w v : Place} → Passes cs w rest v → length rest ≤ length cs
Passes-length {cs} {rest} p = rw (p.splits, length-append p.passed rest) (omega arith)

going_on-agree :
    (m n : ℕ → List ℕ → Place → Result Tokens) (name : Text) (limit size : ℕ) (w : Place)
    (cs : List ℕ) (u : Place) (x : Result (Option Lexeme × Cursor))
    → Advances cs u x
    → ((s : ℕ) (rest : List ℕ) (v : Place) → length rest ≤ length cs → m s rest v ≡ n s rest v)
    → (x >>= going_on m name limit size w) ≡ (x >>= going_on n name limit size w)
unfolding Advances
going_on-agree m n name limit size w cs u (err e) h k = refl
going_on-agree m n name limit size w cs u (ok (none, (rest, v))) h k =
    k size rest v (Passes-length h)
going_on-agree m n name limit size w cs u (ok (some x, (rest, v))) h k =
    rw (k (suc size) rest v (Passes-length h)) refl

pub tokens_from-fuel :
    (f g : ℕ) (eof : Bool) (name : Text) (limit size : ℕ) (cs : List ℕ) (w : Place)
    → length cs ≤ f
    → length cs ≤ g
    → tokens_from f eof name limit size cs w ≡ tokens_from g eof name limit size cs w
unfolding tokens_from
tokens_from-fuel f g eof name limit size [] w h k = refl
tokens_from-fuel zero g eof name limit size (c ∷ cs) w h k = absurd (omega arith)
tokens_from-fuel (suc f) zero eof name limit size (c ∷ cs) w h k = absurd (omega arith)
tokens_from-fuel (suc f) (suc g) eof name limit size (c ∷ cs) w h k =
    going_on-agree (tokens_from f eof name limit) (tokens_from g eof name limit) name limit size w
      cs (moved c w) (round eof c cs w) (round-Advances eof c cs w)
      (λ s rest v l. tokens_from-fuel f g eof name limit s rest v (omega arith) (omega arith))

-- Tokens in front of others.
unfoldable pub with_tokens : List Token → Result Tokens → Result Tokens
with_tokens [] x = x
with_tokens (t ∷ ts) x = with_token t (with_tokens ts x)

pub with_token-eq-ok :
    (t : Token) (x : Result Tokens) (ts : List Token) (k : Cursor)
    → with_token t x ≡ ok (ts, k)
    → (us : List Token) × (x ≡ ok (us, k)) × (ts ≡ t ∷ us)
with_token-eq-ok t (err e) ts k h = absurd (cc h)
with_token-eq-ok t (ok (us, l)) ts k h = (us, cc h, cc h)

going_on-size :
    (m n : ℕ → List ℕ → Place → Result Tokens) (name : Text) (a b : ℕ) (w : Place)
    (x : Result (Option Lexeme × Cursor))
    → ((s t : ℕ) (rest : List ℕ) (v : Place) → m s rest v ≡ n t rest v)
    → (x >>= going_on m name 0 a w) ≡ (x >>= going_on n name 0 b w)
going_on-size m n name a b w (err e) k = refl
going_on-size m n name a b w (ok (none, (rest, v))) k = k a b rest v
going_on-size m n name a b w (ok (some x, (rest, v))) k = rw (k (suc a) (suc b) rest v) refl

-- Without a limit, the number of tokens so far is not looked at.
pub tokens_from-size :
    (f : ℕ) (eof : Bool) (name : Text) (a b : ℕ) (cs : List ℕ) (w : Place)
    → tokens_from f eof name 0 a cs w ≡ tokens_from f eof name 0 b cs w
unfolding tokens_from
tokens_from-size f eof name a b [] w = refl
tokens_from-size zero eof name a b (c ∷ cs) w = refl
tokens_from-size (suc f) eof name a b (c ∷ cs) w =
    going_on-size (tokens_from f eof name 0) (tokens_from f eof name 0) name a b w
      (round eof c cs w) (λ s t rest v. tokens_from-size f eof name s t rest v)

going_on-append :
    (m n : ℕ → List ℕ → Place → Result Tokens) (name : Text) (size : ℕ) (w u v : Place)
    (cs r : List ℕ) (z : Result Tokens) (x y : Result (Option Lexeme × Cursor)) (ts : List Token)
    → Advances cs u x
    → Same x y r
    → (x >>= going_on m name 0 size w) ≡ ok (ts, ([], v))
    → ((s : ℕ) (rest : List ℕ) (u : Place) (us : List Token)
        → length rest ≤ length cs
        → m s rest u ≡ ok (us, ([], v))
        → n s (rest ++ r) u ≡ with_tokens us z)
    → (y >>= going_on n name 0 size w) ≡ with_tokens ts z
unfolding Same Advances with_tokens
going_on-append m n name size w u v cs r z (err e) y ts a h k l = absurd (cc k)
going_on-append m n name size w u v cs r z (ok (none, (rest, q))) y ts a h k l =
    rw h (l size rest q ts (Passes-length a) k)
going_on-append m n name size w u v cs r z (ok (some x, (rest, q))) y ts a h k l =
    let (us, e, cut) = with_token-eq-ok (token_at name w x) (m (suc size) rest q) ts ([], v) k in
    rw (h, cut, l (suc size) rest q us (Passes-length a) e) refl

with_none :
    (g : ℕ) (eof : Bool) (name : Text) (size : ℕ) (r : List ℕ) (w v : Place) (ts : List Token)
    → length r ≤ g
    → [] ≡ ts
    → w ≡ v
    → tokens_from g eof name 0 size r w ≡ with_tokens ts (tokens_from (length r) eof name 0 0 r v)
unfolding with_tokens
with_none g eof name size r w v ts h p q =
    rw (sym p, sym q)
      (tokens_from-fuel g (length r) eof name 0 size r w h (omega arith)
        ∙ tokens_from-size (length r) eof name size 0 r w)

-- If tokenizing the characters of a piece, which need not be the end of the source, returns tokens
-- and leaves nothing, then tokenizing the piece with any characters behind it gives these tokens
-- and then what tokenizing the others from the place behind the piece gives, the error included,
-- with any fuel that is no less than the characters.
pub tokens_from-append :
    (f g : ℕ) (eof : Bool) (name : Text) (size : ℕ) (cs r : List ℕ) (w v : Place) (ts : List Token)
    → length cs ≤ f
    → length cs + length r ≤ g
    → tokens_from f false name 0 size cs w ≡ ok (ts, ([], v))
    → tokens_from g eof name 0 size (cs ++ r) w
      ≡ with_tokens ts (tokens_from (length r) eof name 0 0 r v)
unfolding tokens_from
tokens_from-append f g eof name size [] r w v ts k l h =
    with_none g eof name size r w v ts (omega arith) (cc h) (cc h)
tokens_from-append zero g eof name size (c ∷ cs) r w v ts k l h = absurd (omega arith)
tokens_from-append (suc f) zero eof name size (c ∷ cs) r w v ts k l h = absurd (omega arith)
tokens_from-append (suc f) (suc g) eof name size (c ∷ cs) r w v ts k l h =
    going_on-append (tokens_from f false name 0) (tokens_from g eof name 0) name size w (moved c w)
      v cs r (tokens_from (length r) eof name 0 0 r v) (round false c cs w)
      (round eof c (cs ++ r) w) ts (round-Advances false c cs w) (round-append eof c cs r w) h
      (λ s rest u us j e.
        tokens_from-append f g eof name s rest r u v us (omega arith) (omega arith) e)
