-- ===== src/Tokenizer/Stops.antt =====
-- Where the loop of the tokenizer stops.
use re_poplan.Prelude.{
  ℕ, zero, suc, ◌+◌, ◌≤◌, ◌≡◌, ◌∙◌, ◌⊎◌, inl, inr, refl, sym, ap, arith, Bool, true, false, List,
  [], ◌∷◌, ◌++◌, Option, none, some, length, Bool-cases,
}
use mathlib.Core.List.{append-nil}
use re_poplan.Tokenizer.Decides.{Decides, tokens_from-Decides}
use re_poplan.Value.{Result, ok, err, ◌>>=◌, fault, need_input, need_list, out_of_range}
use re_poplan.State.{Text, Token}
use re_poplan.Tokenizer.{
  round, token_at, Tokens, with_token, is_full, going_on, tokens_from, tokens_of, first_place,
}
use re_poplan.Tokenizer.Places.{Place, Cursor, moved, Lexeme}
use re_poplan.Tokenizer.Progress.{
  Passes, Passes-refl, Passes-cons, Passes-trans, Advances, moved_all,
}
use re_poplan.Tokenizer.Progress.Round.{round-Advances}
use re_poplan.Tokenizer.Loop.{Passes-length}

with_token-Advances :
    (t : Token) (x : Result Tokens) (cs : List ℕ) (w : Place)
    → Advances cs w x
    → Advances cs w (with_token t x)
unfolding Advances
with_token-Advances t (err e) cs w h = tt
with_token-Advances t (ok (ts, k)) cs w h = h

further :
    {A : Type 0} (cs rest : List ℕ) (w v : Place) (x : Result (A × Cursor))
    → Passes cs w rest v
    → Advances rest v x
    → Advances cs w x
unfolding Advances
further cs rest w v (err e) p h = tt
further cs rest w v (ok (a, k)) p h = Passes-trans p h

going_on-Advances :
    (more : ℕ → List ℕ → Place → Result Tokens) (name : Text) (limit size : ℕ) (w u : Place)
    (cs : List ℕ) (x : Result (Option Lexeme × Cursor))
    → Advances cs u x
    → ((s : ℕ) (rest : List ℕ) (v : Place) → Advances rest v (more s rest v))
    → Advances cs u (x >>= going_on more name limit size w)
unfolding Advances
going_on-Advances more name limit size w u cs (err e) h k = tt
going_on-Advances more name limit size w u cs (ok (none, (rest, v))) h k =
    further cs rest u v (more size rest v) h (k size rest v)
going_on-Advances more name limit size w u cs (ok (some x, (rest, v))) h k =
    elim (Bool-cases (is_full limit (suc size))) [
      | inl y ↦ rw y h
      | inr n ↦ rw n (
          further cs rest u v _ h (
            with_token-Advances (token_at name w x) (more (suc size) rest v) rest v
              (k (suc size) rest v)))
    ]

pub tokens_from-Advances :
    (f : ℕ) (eof : Bool) (name : Text) (limit size : ℕ) (cs : List ℕ) (w : Place)
    → Advances cs w (tokens_from f eof name limit size cs w)
unfolding tokens_from Advances
tokens_from-Advances f eof name limit size [] w = Passes-refl [] w
tokens_from-Advances zero eof name limit size (c ∷ cs) w = Passes-refl (c ∷ cs) w
tokens_from-Advances (suc f) eof name limit size (c ∷ cs) w =
    further (c ∷ cs) cs w (moved c w) _
      (Passes-cons c cs w cs (moved c w) (Passes-refl cs (moved c w)))
      (going_on-Advances (tokens_from f eof name limit) name limit size w (moved c w) cs
        (round eof c cs w) (round-Advances eof c cs w)
        (λ s rest v. tokens_from-Advances f eof name limit s rest v))

-- A loop that returns has passed its first character.
pub first-Advances :
    (f : ℕ) (eof : Bool) (name : Text) (limit size c : ℕ) (cs : List ℕ) (w : Place)
    → Advances cs (moved c w) (tokens_from (suc f) eof name limit size (c ∷ cs) w)
unfolding tokens_from
first-Advances f eof name limit size c cs w =
    going_on-Advances (tokens_from f eof name limit) name limit size w (moved c w) cs
      (round eof c cs w) (round-Advances eof c cs w)
      (λ s rest v. tokens_from-Advances f eof name limit s rest v)

-- All is read, or the tokens are as many as are wanted.
unfoldable pub Stops : ℕ → ℕ → Result Tokens → Type 0
Stops limit size (err e) = Unit
Stops limit size (ok (ts, (rest, v))) = (rest ≡ []) ⊎ (is_full limit (size + length ts) ≡ true)

with_token-Stops :
    (t : Token) (limit size : ℕ) (x : Result Tokens)
    → Stops limit (suc size) x
    → Stops limit size (with_token t x)
unfolding Stops
with_token-Stops t limit size (err e) h = tt
with_token-Stops t limit size (ok (ts, (rest, v))) (inl e) = inl e
with_token-Stops t limit size (ok (ts, (rest, v))) (inr e) =
    inr (ap (is_full limit) (omega arith) ∙ e)

going_on-Stops :
    (more : ℕ → List ℕ → Place → Result Tokens) (name : Text) (limit size : ℕ) (w u : Place)
    (cs : List ℕ) (x : Result (Option Lexeme × Cursor))
    → Advances cs u x
    → ((s : ℕ) (rest : List ℕ) (v : Place)
        → length rest ≤ length cs
        → Stops limit s (more s rest v))
    → Stops limit size (x >>= going_on more name limit size w)
unfolding Stops Advances
going_on-Stops more name limit size w u cs (err e) h k = tt
going_on-Stops more name limit size w u cs (ok (none, (rest, v))) h k =
    k size rest v (Passes-length h)
going_on-Stops more name limit size w u cs (ok (some x, (rest, v))) h k =
    elim (Bool-cases (is_full limit (suc size))) [
      | inl y ↦ rw y (inr (ap (is_full limit) (omega arith) ∙ y))
      | inr n ↦ rw n (
          with_token-Stops (token_at name w x) limit size (more (suc size) rest v)
            (k (suc size) rest v (Passes-length h)))
    ]

nothing_left : (limit size : ℕ) (w : Place) → Stops limit size (ok ([], ([], w)))
unfolding Stops
nothing_left limit size w = inl refl

pub tokens_from-Stops :
    (f : ℕ) (eof : Bool) (name : Text) (limit size : ℕ) (cs : List ℕ) (w : Place)
    → length cs ≤ f
    → Stops limit size (tokens_from f eof name limit size cs w)
unfolding tokens_from
tokens_from-Stops f eof name limit size [] w h = nothing_left limit size w
tokens_from-Stops zero eof name limit size (c ∷ cs) w h = absurd (omega arith)
tokens_from-Stops (suc f) eof name limit size (c ∷ cs) w h =
    going_on-Stops (tokens_from f eof name limit) name limit size w (moved c w) cs
      (round eof c cs w) (round-Advances eof c cs w)
      (λ s rest v l. tokens_from-Stops f eof name limit s rest v (omega arith))

-- What the loop without a limit may come to.
pub data Outcome (eof : Bool) (cs : List ℕ) (w : Place) : Result Tokens → Type 0 where
  all_read : (ts : List Token) → Outcome eof cs w (ok (ts, ([], moved_all cs w)))
  faulty : (message : Text) → Outcome eof cs w (err (fault message))
  cut_short : eof ≡ false → Outcome eof cs w (err need_input)

outcome_of :
    (eof : Bool) (cs : List ℕ) (w : Place) (x : Result Tokens)
    → Decides eof x
    → Advances cs w x
    → Stops 0 0 x
    → Outcome eof cs w x
unfolding Decides Advances Stops
outcome_of eof cs w (err (fault m)) d a s = faulty m
outcome_of eof cs w (err need_input) d a s = cut_short d
outcome_of eof cs w (err (need_list v)) d a s = absurd d
outcome_of eof cs w (err out_of_range) d a s = absurd d
outcome_of eof cs w (ok (ts, (rest, v))) d a (inr full) = absurd (cc full)
outcome_of eof cs w (ok (ts, (rest, v))) d a (inl e) =
    let whole : a.passed ≡ cs = sym (a.splits ∙ ap (◌++◌ a.passed) e ∙ append-nil a.passed) in
    rw (e, a.place_is, whole) (all_read ts)

-- Tokenizing characters without a limit reads all of them and comes to the place behind the last,
-- or throws a fault, or asks for more input, and this last only if they need not be the end of the
-- source.
pub tokens_of-Outcome :
    (eof : Bool) (name : Text) (cs : List ℕ) → Outcome eof cs first_place (tokens_of eof name 0 cs)
unfolding tokens_of
tokens_of-Outcome eof name cs =
    outcome_of eof cs first_place _ (tokens_from-Decides (length cs) eof name 0 0 cs first_place)
      (tokens_from-Advances (length cs) eof name 0 0 cs first_place)
      (tokens_from-Stops (length cs) eof name 0 0 cs first_place (omega arith))
