-- ===== src/Reader/Refines.antt =====
-- The tokens that `lex_available` puts into the input.
use re_poplan.Prelude.{
  ℕ, zero, suc, ◌+◌, ◌≤◌, ◌<◌, ◌≡◌, ◌∙◌, refl, sym, ap, arith, Bool, true, false, List, [], ◌∷◌,
  ◌++◌, length, length-append, drop, Bool-cases, inl, inr, map,
}
use mathlib.Core.List.{append_assoc, append-nil}
use mathlib.Core.Path.{subst}
use re_poplan.Value.{Result, ok, err}
use re_poplan.Utf8.{encode_all}
use re_poplan.State.{Text, Location, Token}
use re_poplan.Tokenizer.{first_place, tokens_from, Tokens, end_at}
use re_poplan.Tokenizer.Places.{Place, Cursor}
use re_poplan.Tokenizer.Loop.{with_tokens, with_token-eq-ok}
use re_poplan.Tokenizer.Single.{
  then_tokens, tokens_from-then_tokens, IsSingle, tokens_from-IsSingle,
}
use re_poplan.Reader.{
  Lexer, place_of, consume, lex_round, is_empty, lex_loop, lex_available, with_end, end_token,
  shifted, shifted_token,
}
use re_poplan.Reader.Walk.{Counts, ok_injective, advanced-shifted}
use re_poplan.Reader.Consumed.{drop-append, shifted-first}
use re_poplan.Reader.Finishes.{encode_all-some}
use re_poplan.Reader.Placed.{shifted_tokens, tokens_from-shifted}
use re_poplan.Reader.Rounds.{round_reads}
use re_poplan.Reader.Fronts.{before_end, consume-front, consume_some_input}

with_tokens-eq-ok :
    (us : List Token) (x : Result Tokens) (ts : List Token) (k : Cursor)
    → with_tokens us x ≡ ok (ts, k)
    → (vs : List Token) × (x ≡ ok (vs, k)) × (ts ≡ us ++ vs)
unfolding with_tokens
with_tokens-eq-ok [] x ts k h = (ts, h, refl)
with_tokens-eq-ok (u ∷ us) x ts k h =
    let (vs, e, cut) = with_token-eq-ok u (with_tokens us x) ts k h in
    let (ws, e', cut') = with_tokens-eq-ok us x vs k e in (ws, e', cut ∙ ap (◌∷◌ u) cut')

-- What the first token leaves to be read.
tokens_left :
    (l : Location) (x : Result Tokens) (more : List ℕ → Place → Result Tokens) (ts : List Token)
    (v : Place)
    → then_tokens (shifted_tokens l x) more ≡ ok (ts, ([], v))
    → (us : List Token) × (rest : List ℕ) × (stop : Place) × (vs : List Token) × (x
        ≡ ok (us, (rest, stop)))
      × (more rest (shifted l stop) ≡ ok (vs, ([], v)))
      × (ts ≡ map (shifted_token l) us ++ vs)
unfolding then_tokens shifted_tokens
tokens_left l (err e) more ts v h = absurd (cc h)
tokens_left l (ok (us, (rest, stop))) more ts v h =
    let (vs, e, cut) =
      with_tokens-eq-ok (map (shifted_token l) us) (more rest (shifted l stop)) ts ([], v) h in
    (us, rest, stop, vs, refl, e, cut)

-- The reader that a loop returns, with all read and the tokens `ts` put in front of the end.
pub record TokensRead (r : Lexer) (ts : List Token) (v : Place) (x : Result Lexer) : Type 0 where
  pub next : Lexer
  pub returned : x ≡ ok next
  pub none_left : next.pending ≡ []
  pub place_is : place_of next.lex_location ≡ v
  pub input_is : before_end next.input ≡ before_end r.input ++ ts

TokensRead-append :
    (r mid : Lexer) (us vs ts : List Token) (v : Place) (x y : Result Lexer)
    → TokensRead mid vs v x
    → before_end mid.input ≡ before_end r.input ++ us
    → ts ≡ us ++ vs
    → y ≡ x
    → TokensRead r ts v y
TokensRead-append r mid us vs ts v x y h front cut e = record {
  next = h.next;
  returned = e ∙ h.returned;
  none_left = h.none_left;
  place_is = h.place_is;
  input_is =
      h.input_is
      ∙ ap (λ a. a ++ vs) front
      ∙ append_assoc (before_end r.input) us vs
      ∙ ap (◌++◌ (before_end r.input)) (sym cut);
}

nothing_to_read :
    (r : Lexer) (ts : List Token) (v : Place) (x : Result Lexer)
    → [] ≡ r.pending
    → x ≡ ok r
    → [] ≡ ts
    → place_of r.lex_location ≡ v
    → TokensRead r ts v x
nothing_to_read r ts v x p e q w = record {
  next = r;
  returned = e;
  none_left = sym p;
  place_is = w;
  input_is = sym (append-nil (before_end r.input)) ∙ ap (◌++◌ (before_end r.input)) q;
}

lex_loop-nil : (fuel : ℕ) (r : Lexer) → [] ≡ r.pending → lex_loop fuel r ≡ ok r
unfolding lex_loop
lex_loop-nil zero r p = refl
lex_loop-nil (suc fuel) r p = rw (sym p) refl

lex_loop-step :
    (fuel : ℕ) (r mid : Lexer)
    → 0 < length r.pending
    → lex_round r ≡ ok (mid, true)
    → lex_loop (suc fuel) r ≡ lex_loop fuel mid
unfolding lex_loop
lex_loop-step fuel r mid l e = rw (some_left r.pending l, e) refl
  where
    some_left : (s : List ℕ) → 0 < length s → is_empty s ≡ false
    some_left [] k = absurd (omega arith)
    some_left (c ∷ s) k = refl

-- The tokens of the pending characters, from the start of these.
tokens_at_start :
    (l : Location) (eof : Bool) (name : Text) (cs : List ℕ)
    → Counts (place_of l)
    → tokens_from (length cs) eof name 0 0 cs (place_of l)
      ≡ then_tokens
          (shifted_tokens l (tokens_from (length cs) eof name 1 0 cs first_place))
          (λ rest k. tokens_from (length rest) eof name 0 0 rest k)
tokens_at_start l eof name cs k =
    tokens_from-then_tokens (length cs) eof name cs (place_of l) (omega arith)
    ∙ ap (λ x. then_tokens x (λ rest k. tokens_from (length rest) eof name 0 0 rest k))
        (ap (tokens_from (length cs) eof name 1 0 cs) (sym (shifted-first l k))
          ∙ tokens_from-shifted l (length cs) eof name 1 0 cs first_place k
              (omega arith, omega arith))

-- The reader after a round.
consumed_pending :
    (r : Lexer) (ts : List Token) (w : Place) (s u : List ℕ)
    → r.pending ≡ s ++ u
    → u ≡ (consume r ts (w, 0 + length s)).pending
unfolding consume
consumed_pending r ts w s u h =
    let n : 0 + length s ≡ length s = omega arith in
    sym (drop-append s u) ∙ ap (drop (length s)) (sym h) ∙ ap (λ m. drop m r.pending) (sym n)

consumed_place :
    (r : Lexer) (ts : List Token) (w : Place) (n : ℕ)
    → Counts w
    → Counts (place_of r.lex_location)
    → place_of (consume r ts (w, n)).lex_location ≡ shifted r.lex_location w
unfolding consume
consumed_place r ts w n h k = advanced-shifted r.lex_location w h k

shifted-Counts : (l : Location) (w : Place) → Counts w → Counts (place_of l) → Counts (shifted l w)
unfolding shifted
shifted-Counts l w (a, b) (c, d) = ground arith

nil_read :
    (fuel : ℕ) (r : Lexer) (ts : List Token) (v : Place)
    → encode_all [] ≡ ok r.pending
    → tokens_from 0 r.input_eof r.pending_name 0 0 [] (place_of r.lex_location) ≡ ok (ts, ([], v))
    → TokensRead r ts v (lex_loop fuel r)
unfolding encode_all tokens_from
nil_read fuel r ts v h t =
    let p : [] ≡ r.pending = ok_injective h in
    nothing_to_read r ts v (lex_loop fuel r) p (lex_loop-nil fuel r p) (cc t) (cc t)

read_on :
    (r : Lexer) (us : List Token) (w q : Place) (n : ℕ) (rest : List ℕ) (x : Result Tokens)
    → place_of (consume r us (w, n)).lex_location ≡ q
    → tokens_from (length rest) r.input_eof r.pending_name 0 0 rest q ≡ x
    → tokens_from
        (length rest)
        (consume r us (w, n)).input_eof
        (consume r us (w, n)).pending_name
        0
        0
        rest
        (place_of (consume r us (w, n)).lex_location)
      ≡ x
unfolding consume
read_on r us w q n rest x p h =
    ap (tokens_from (length rest) r.input_eof r.pending_name 0 0 rest) p ∙ h

lex_loop-TokensRead :
    (fuel : ℕ) (r : Lexer) (cs : List ℕ) (ts : List Token) (v : Place)
    → encode_all cs ≡ ok r.pending
    → Counts (place_of r.lex_location)
    → length r.pending ≤ fuel
    → is_empty r.input ≡ false
    → tokens_from (length cs) r.input_eof r.pending_name 0 0 cs (place_of r.lex_location)
      ≡ ok (ts, ([], v))
    → TokensRead r ts v (lex_loop fuel r)
lex_loop-TokensRead fuel r [] ts v h k l i t = nil_read fuel r ts v h t
lex_loop-TokensRead zero r (c ∷ cs) ts v h k l i t =
    absurd (omega (arith, encode_all-some c cs r.pending h))
lex_loop-TokensRead (suc fuel) r (c ∷ cs) ts v h k l i t =
    let (us, rest, stop, vs, a, t', cut) =
      tokens_left r.lex_location _ _ ts v
        (sym (tokens_at_start r.lex_location r.input_eof r.pending_name (c ∷ cs) k) ∙ t) in
    let g = round_reads r c cs us rest stop h a in
    let e = end_at r.pending_name stop in
    let n = 0 + length g.spelled in
    let mid = consume r (us ++ e ∷ []) (stop, n) in
    let single =
      subst IsSingle a
        (tokens_from-IsSingle (length (c ∷ cs)) r.input_eof r.pending_name (c ∷ cs) first_place) in
    let tokens = us ++ e ∷ [] in
    let p = consumed_pending r tokens stop g.spelled g.left g.splits in
    let q = consumed_place r tokens stop n g.counts k in
    let some_pending : 0 < length r.pending = encode_all-some c cs r.pending h in
    let shorter : length mid.pending ≤ fuel =
      omega (
        arith,
        l,
        ap length p,
        ap length g.splits,
        length-append g.spelled g.left,
        g.some_spelled,
      ) in
    TokensRead-append r mid (map (shifted_token r.lex_location) us) vs ts v (lex_loop fuel mid) _
      (lex_loop-TokensRead fuel mid rest vs v (g.leaves ∙ ap ok p)
        (subst Counts (sym q) (shifted-Counts r.lex_location stop g.counts k)) shorter
        (consume_some_input r us e stop n i) (read_on r tokens stop _ n rest _ q t'))
      (consume-front r us e stop stop rest n i single) cut
      (lex_loop-step fuel r mid some_pending g.goes_on)

with_input :
    (r : Lexer) (e : Token) (ts : List Token) (v : Place) (x : Result Lexer)
    → is_empty r.input ≡ true
    → TokensRead (record r { input = e ∷ [] }) ts v x
    → TokensRead r ts v x
unfolding before_end
with_input r e ts v x i h = record {
  next = h.next;
  returned = h.returned;
  none_left = h.none_left;
  place_is = h.place_is;
  input_is = h.input_is ∙ ap (λ a. a ++ ts) (no_front r.input i);
}
  where
    no_front : (a : List Token) → is_empty a ≡ true → [] ≡ before_end a
    no_front [] k = refl
    no_front (b ∷ a) k = absurd (cc k)

-- If the pending bytes spell characters, and tokenizing all these from the place of the reader, as
-- the end of the source or not, returns tokens and leaves nothing, then lex_available returns; it
-- puts exactly these tokens, with these places, behind the tokens of the input and in front of its
-- end, leaves nothing pending, and comes to the place behind the characters.
pub lex_available-TokensRead :
    (r : Lexer) (cs : List ℕ) (ts : List Token) (v : Place)
    → encode_all cs ≡ ok r.pending
    → Counts (place_of r.lex_location)
    → tokens_from (length cs) r.input_eof r.pending_name 0 0 cs (place_of r.lex_location)
      ≡ ok (ts, ([], v))
    → TokensRead r ts v (lex_available r)
unfolding lex_available with_end
lex_available-TokensRead r cs ts v h k t = elim (Bool-cases (is_empty r.input)) [
  | inl y ↦ rw y (
      with_input r (end_token r.lex_location) ts v _ y (
        lex_loop-TokensRead (length r.pending) (record r { input = end_token r.lex_location ∷ [] })
          cs ts v h k (omega arith) refl t))
  | inr n ↦ rw n (lex_loop-TokensRead (length r.pending) r cs ts v h k (omega arith) n t)
]
