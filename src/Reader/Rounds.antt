-- ===== src/Reader/Rounds.antt =====
-- A round of `lex_available` on bytes that are all decoded.
use re_poplan.Prelude.{
  ℕ, ◌+◌, ◌<◌, ◌≡◌, ◌≢◌, ◌∙◌, refl, sym, ap, arith, Bool, true, false, ◌&&◌, List, [], ◌∷◌, ◌++◌,
  ◌==◌, length, take-length, none,
}
use mathlib.Core.List.{append-nil}
use mathlib.Core.Path.{subst}
use re_poplan.Value.{ok}
use re_poplan.Utf8.{encode_all, decode, decoding, decode_loop}
use re_poplan.Utf8.RoundTrip.{decoding-encode_all, decode-encode_all}
use re_poplan.State.{Text, Token}
use re_poplan.Tokenizer.{first_place, tokenize, tokens_from, end_at}
use re_poplan.Tokenizer.Places.{Place}
use re_poplan.Tokenizer.Progress.{moved_all}
use re_poplan.Reader.{Lexer, walk, consume, walked, tokenized, lex_round}
use re_poplan.Reader.Walk.{Counts, moved_all-Counts}
use re_poplan.Reader.Consumed.{walk_is, last_place-append}
use re_poplan.Reader.Finishes.{tokenize-decoded, passes, encode_all-some, finished}

whole :
    (cs s : List ℕ)
    → encode_all cs ≡ ok s
    → decoding s ≡ record { out = cs; valid_bytes = length s; stop = none }
unfolding decoding decode_loop
whole cs s h =
    let e =
      subst (λ t. decoding t ≡ record { out = cs ++ []; valid_bytes = length s + 0; stop = none })
        (append-nil s) (decoding-encode_all cs s [] h) in
    let n : length s + 0 ≡ length s = omega arith in
    e
    ∙ ap (λ t. record { out = t; valid_bytes = length s + 0; stop = none }) (append-nil cs)
    ∙ ap (λ m. record { out = cs; valid_bytes = m; stop = none }) n

and_true : (b : Bool) → (b && true && true) ≡ b
and_true true = refl
and_true false = refl

lex_round_whole :
    (r : Lexer) (cs : List ℕ)
    → encode_all cs ≡ ok r.pending
    → lex_round r
      ≡ tokenized [] r.pending r (
          finished r.pending_name
            (tokens_from (length cs) r.input_eof r.pending_name 1 0 cs first_place))
unfolding lex_round
lex_round_whole r cs h =
    let start : lex_round r
        ≡ tokenized [] r.pending r
            (tokenize r.pending r.pending_name (r.input_eof && true && true) 1) =
      rw (whole cs r.pending h, take-length r.pending) refl in
    start
    ∙ ap (λ b. tokenized [] r.pending r (tokenize r.pending r.pending_name b 1))
        (and_true r.input_eof)
    ∙ ap (tokenized [] r.pending r) (
        tokenize-decoded r.pending cs r.pending_name r.input_eof 1
          (decode-encode_all cs r.pending h))

some_bytes : (cs s : List ℕ) → cs ≢ [] → encode_all cs ≡ ok s → 0 < length s
some_bytes [] s n h = absurd (n refl)
some_bytes (c ∷ cs) s n h = encode_all-some c cs s h

tokenized_on :
    (r : Lexer) (cs : List ℕ) (us : List Token) (stop w : Place) (n : ℕ)
    → decode r.pending ≡ ok cs
    → walk stop cs first_place 0 ≡ ok (w, n)
    → tokenized [] r.pending r (ok (us ++ end_at r.pending_name stop ∷ []))
      ≡ ok (walked [] r (us ++ end_at r.pending_name stop ∷ []) (w, n))
unfolding tokenized
tokenized_on r cs us stop w n d h = rw (d, last_place-append us r.pending_name stop, h) refl

-- A round that comes to the place `stop`, with the characters `rest` behind it.
pub record RoundReads (r : Lexer) (us : List Token) (rest : List ℕ) (stop : Place) : Type 0 where
  pub spelled : List ℕ
  pub left : List ℕ
  pub leaves : encode_all rest ≡ ok left
  pub splits : r.pending ≡ spelled ++ left
  pub counts : Counts stop
  pub some_spelled : 0 < length spelled
  pub goes_on :
      lex_round r
      ≡ ok (consume r (us ++ end_at r.pending_name stop ∷ []) (stop, 0 + length spelled), true)

walked_on :
    (message : Text) (r : Lexer) (ts : List Token) (w : Place) (n : ℕ)
    → 0 < n
    → walked message r ts (w, n) ≡ (consume r ts (w, n), true)
unfolding walked
walked_on message r ts w n h = rw nonzero refl
  where
    nonzero : (n == 0) ≡ false
    nonzero = ground arith

pub round_reads :
    (r : Lexer) (c : ℕ) (cs : List ℕ) (us : List Token) (rest : List ℕ) (stop : Place)
    → encode_all (c ∷ cs) ≡ ok r.pending
    → tokens_from (length (c ∷ cs)) r.input_eof r.pending_name 1 0 (c ∷ cs) first_place
      ≡ ok (us, (rest, stop))
    → RoundReads r us rest stop
round_reads r c cs us rest stop h a =
    let (p, some_passed) = passes r.input_eof r.pending_name (c ∷ cs) us rest stop a in
    let (s, u, es, cut, both, er) = walk_is (c ∷ cs) r.pending rest stop h p in
    let l = some_bytes p.passed s (some_passed (λ k. cc k)) es in
    let n = 0 + length s in
    let tokens = us ++ end_at r.pending_name stop ∷ [] in
    record {
      spelled = s;
      left = u;
      leaves = er;
      splits = cut;
      counts =
          subst Counts (sym p.place_is)
            (moved_all-Counts p.passed first_place (omega arith, omega arith));
      some_spelled = l;
      goes_on =
          lex_round_whole r (c ∷ cs) h
          ∙ ap (λ x. tokenized [] r.pending r (finished r.pending_name x)) a
          ∙ tokenized_on r (c ∷ cs) us stop (moved_all p.passed first_place) n
              (decode-encode_all (c ∷ cs) r.pending h) both
          ∙ ap (λ w. ok (walked [] r tokens (w, n))) (sym p.place_is)
          ∙ ap ok (walked_on [] r tokens stop n (omega (arith, l)));
    }
