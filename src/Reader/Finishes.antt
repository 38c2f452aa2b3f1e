-- ===== src/Reader/Finishes.antt =====
-- The end of `lex_available`: that it comes, and what is left at the end of the input.
use re_poplan.Prelude.{
  ℕ, zero, suc, ◌+◌, ◌≤◌, ◌<◌, ◌≡◌, ◌≢◌, ◌∙◌, refl, sym, ap, arith, Bool, true, false, not, ◌&&◌,
  List, [], ◌∷◌, ◌++◌, ◌==◌, length, length-append, take, Option, Bool-cases, inl, inr,
}
use mathlib.Core.Path.{subst}
use re_poplan.Value.{
  Exception, Result, ok, err, ◌>>=◌, >>=-eq-ok, need_input, need_list, out_of_range, fault,
}
use re_poplan.Utf8.{encode, encode_all, decode, decoding}
use re_poplan.Utf8.Decoded.{AreBytes}
use re_poplan.Utf8.RoundTrip.{encode_all-decoding, decode-encode_all}
use re_poplan.State.{Text, Token}
use re_poplan.Tokenizer.{first_place, tokenize, tokens_of, tokens_from, Tokens, end_at}
use re_poplan.Tokenizer.Places.{Place, moved}
use re_poplan.Tokenizer.Progress.{moved_all, Passes, Advances}
use re_poplan.Tokenizer.Stops.{tokens_from-Advances, first-Advances}
use re_poplan.Tokenizer.Decides.{Decides, tokens_from-Decides}
use re_poplan.Reader.{
  Lexer, place_of, Round, consume, walked, tokenized, lex_round, fail_decoding, is_empty, repeated,
  lex_loop, with_failure, lex_available, with_end, end_token, decoding_error, incomplete_utf8,
}
use re_poplan.Reader.Walk.{Counts, moved_all-Counts, ok_injective}
use re_poplan.Reader.Consumed.{
  lex_round-Consumes, walk_is, last_place-append, tokenized-goes-on, walked-goes-on,
}
use re_poplan.Reader.Undecoded.{no_scalar, message_said}
use re_poplan.Reader.Settled.{AreBytes-append, Consumes-length, length_zero, is_empty-nil}

-- A round returns, and one that stops at the end of the input leaves nothing.
record Ends (r : Lexer) (x : Result Round) : Type 0 where
  next : Lexer
  goes_on : Bool
  returned : x ≡ ok (next, goes_on)
  nothing_left : goes_on ≡ false → r.input_eof ≡ true → next.pending ≡ []

abbrev pub finished : Text → Result Tokens → Result (List Token)
finished name x = do (tokens, (_, w)) ← x; ok (tokens ++ end_at name w ∷ [])

fail_decoding-nil :
    (message : Text) (r : Lexer) → is_empty message ≡ false → (fail_decoding message r).pending ≡ []
unfolding fail_decoding
fail_decoding-nil [] r h = absurd (cc h)
fail_decoding-nil (c ∷ message) r h = refl

failing :
    (r : Lexer) (message : Text)
    → (r.input_eof ≡ true → is_empty message ≡ false)
    → Ends r (ok (fail_decoding message r, false))
failing r message h = record {
  next = fail_decoding message r;
  goes_on = false;
  returned = refl;
  nothing_left = λ e i. fail_decoding-nil message r (h i);
}

encode-some : (c : ℕ) (s : List ℕ) → encode c ≡ ok s → 0 < length s
unfolding encode
encode-some c s h = ground arith

pub encode_all-some : (c : ℕ) (cs s : List ℕ) → encode_all (c ∷ cs) ≡ ok s → 0 < length s
unfolding encode_all
encode_all-some c cs s h =
    let (u, eu, h') = >>=-eq-ok (encode c) _ h in
    let (v, ev, e) = >>=-eq-ok (encode_all cs) _ h' in
    omega (arith, encode-some c u eu, length-append u v, ap length (ok_injective e))

none_passed : (cs s : List ℕ) → encode_all cs ≡ ok s → 0 + length s ≡ 0 → cs ≡ []
none_passed [] s h e = refl
none_passed (c ∷ cs) s h e = absurd (omega (arith, encode_all-some c cs s h, e))

none_there : (cs passed : List ℕ) → (cs ≢ [] → passed ≢ []) → passed ≡ [] → cs ≡ []
none_there [] passed h e = refl
none_there (c ∷ cs) passed h e = absurd (h (λ k. cc k) e)

walked-Ends :
    (r : Lexer) (message : Text) (ts : List Token) (w : Place) (n : ℕ)
    → (r.input_eof ≡ true → n ≡ 0 → is_empty message ≡ false)
    → Ends r (ok (walked message r ts (w, n)))
unfolding walked
walked-Ends r message ts w n h = elim (Bool-cases (n == 0)) [
  | inl y ↦ rw y (failing r message (λ i. h i (ground arith)))
  | inr m ↦ rw m (record {
    next = consume r ts (w, n);
    goes_on = true;
    returned = refl;
    nothing_left = λ e i. absurd (cc e);
  })
]

module _ (r : Lexer) (message available : List ℕ) (name : Text) (eof : Bool)
    (said : r.input_eof ≡ true → eof ≡ false → is_empty message ≡ false) where
  thrown-Ends :
      (e : Exception)
      → Decides {A = Tokens} eof (err e)
      → Ends r (tokenized message available r (err e))
  unfolding tokenized Decides
  thrown-Ends (fault m) h = record {
    next = with_failure m r;
    goes_on = false;
    returned = refl;
    nothing_left = λ e i. refl;
  }
  thrown-Ends need_input h = failing r message (λ i. said i h)
  thrown-Ends (need_list v) h = absurd h
  thrown-Ends out_of_range h = absurd h

  read-Ends :
      (cs rest : List ℕ) (ts : List Token) (stop : Place)
      → encode_all cs ≡ ok available
      → decode available ≡ ok cs
      → (r.input_eof ≡ true → cs ≡ [] → is_empty message ≡ false)
      → (p : Passes cs first_place rest stop) → (cs ≢ [] → p.passed ≢ [])
      → Ends r (tokenized message available r (ok (ts ++ end_at name stop ∷ [])))
  unfolding tokenized
  read-Ends cs rest ts stop enc dec none_said p some_passed =
      let (s, u, es, cut, both, er) = walk_is cs available rest stop enc p in
      rw (dec, last_place-append ts name stop, both)
        (walked-Ends r message (ts ++ end_at name stop ∷ []) (moved_all p.passed first_place)
          (0 + length s)
          (λ i e. none_said i (none_there cs p.passed some_passed (none_passed p.passed s es e))))

  tokens-Ends :
      (cs : List ℕ) (x : Result Tokens)
      → encode_all cs ≡ ok available
      → decode available ≡ ok cs
      → (r.input_eof ≡ true → cs ≡ [] → is_empty message ≡ false)
      → Decides eof x
      → ((ts : List Token) (rest : List ℕ) (stop : Place)
          → x ≡ ok (ts, (rest, stop))
          → (p : Passes cs first_place rest stop) × (cs ≢ [] → p.passed ≢ []))
      → Ends r (tokenized message available r (finished name x))
  tokens-Ends cs (err e) enc dec none_said d h = thrown-Ends e d
  tokens-Ends cs (ok (ts, (rest, stop))) enc dec none_said d h =
      let (p, some_passed) = h ts rest stop refl in
      read-Ends cs rest ts stop enc dec none_said p some_passed

first_passed :
    (c : ℕ) (cs : List ℕ) (w : Place) (rest : List ℕ) (v : Place)
    → Passes cs (moved c w) rest v
    → (p : Passes (c ∷ cs) w rest v) × (p.passed ≢ [])
unfolding moved_all
first_passed c cs w rest v p = (
  record { passed = c ∷ p.passed; splits = ap (◌∷◌ c) p.splits; place_is = p.place_is },
  λ k. cc k,
)

-- A loop that returns has passed something, if there is something.
pub passes :
    (eof : Bool) (name : Text) (cs : List ℕ) (ts : List Token) (rest : List ℕ) (stop : Place)
    → tokens_from (length cs) eof name 1 0 cs first_place ≡ ok (ts, (rest, stop))
    → (p : Passes cs first_place rest stop) × (cs ≢ [] → p.passed ≢ [])
unfolding Advances
passes eof name [] ts rest stop h = (
  subst (Advances [] first_place) h (tokens_from-Advances 0 eof name 1 0 [] first_place),
  λ n. absurd (n refl),
)
passes eof name (c ∷ cs) ts rest stop h =
    let p =
      subst (Advances cs (moved c first_place)) h
        (first-Advances (length cs) eof name 1 0 c cs first_place) in
    let (q, n) = first_passed c cs first_place rest stop p in (q, λ _. n)

pub tokenize-decoded :
    (s cs : List ℕ) (name : Text) (eof : Bool) (limit : ℕ)
    → decode s ≡ ok cs
    → tokenize s name eof limit
      ≡ finished name (tokens_from (length cs) eof name limit 0 cs first_place)
unfolding tokenize tokens_of
tokenize-decoded s cs name eof limit h = rw h refl

-- The message at the end of the input where no byte is decoded.
nothing_decoded :
    (s : List ℕ) (eof : Bool)
    → 0 < length s
    → eof ≡ true
    → (decoding s).out ≡ []
    → is_empty (decoding_error eof (decoding s).stop) ≡ false
nothing_decoded [] eof l e h = absurd (omega arith)
nothing_decoded (b ∷ s) eof l e h = rw e (no_scalar b s h)

bad_end :
    (stop : Option Exception) (eof : Bool)
    → eof ≡ true
    → (eof && not (incomplete_utf8 stop) && is_empty (decoding_error eof stop)) ≡ false
    → is_empty (decoding_error eof stop) ≡ false
bad_end stop eof e h = rw e (message_said stop (rw e at h))

lex_round-Ends : (r : Lexer) → AreBytes r.pending → 0 < length r.pending → Ends r (lex_round r)
unfolding lex_round
lex_round-Ends r bs l =
    let d = decoding r.pending in
    let available = take d.valid_bytes r.pending in
    let message = decoding_error r.input_eof d.stop in
    let eof = r.input_eof && not (incomplete_utf8 d.stop) && is_empty message in
    let enc = encode_all-decoding r.pending bs in
    let dec = decode-encode_all d.out available enc in
    let x = tokens_from (length d.out) eof r.pending_name 1 0 d.out first_place in
    rw (tokenize-decoded available d.out r.pending_name eof 1 dec) (
      tokens-Ends r message available r.pending_name eof (bad_end d.stop r.input_eof) d.out x enc
        dec (λ i h. nothing_decoded r.pending r.input_eof l i h)
        (tokens_from-Decides (length d.out) eof r.pending_name 1 0 d.out first_place)
        (passes eof r.pending_name d.out))

-- What the loop comes to.
abbrev Finishes : Lexer → Result Lexer → Type 0
Finishes r x = (next : Lexer) × (x ≡ ok next) × (r.input_eof ≡ true → next.pending ≡ [])

consume-eof : (r next : Lexer) → lex_round r ≡ ok (next, true) → next.input_eof ≡ r.input_eof
unfolding lex_round consume
consume-eof r next h =
    let (tokens, chars, w, n, et, ec, ew, go) = tokenized-goes-on _ _ r next _ h in
    let (some_read, is_next) = walked-goes-on _ r next tokens w n go in
    ap (λ s. s.input_eof) is_next

pub is_empty-length : (s : List ℕ) → is_empty s ≡ false → 0 < length s
is_empty-length [] h = absurd (cc h)
is_empty-length (c ∷ s) h = omega arith

repeated-Finishes :
    (r : Lexer) (more : Lexer → Result Lexer) (x : Result Round)
    → Ends r x
    → ((mid : Lexer) → x ≡ ok (mid, true) → Finishes r (more mid))
    → Finishes r (repeated more x)
repeated-Finishes r more x e h = elim (Bool-cases e.goes_on) [
  | inl y ↦
      let returned : x ≡ ok (e.next, true) = e.returned ∙ ap (λ b. ok (e.next, b)) y in
      rw returned (h e.next returned)
  | inr n ↦
      let returned : x ≡ ok (e.next, false) = e.returned ∙ ap (λ b. ok (e.next, b)) n in
      rw returned (e.next, refl, e.nothing_left n)
]

lex_loop-Finishes :
    (fuel : ℕ) (r : Lexer)
    → AreBytes r.pending
    → Counts (place_of r.lex_location)
    → length r.pending ≤ fuel
    → Finishes r (lex_loop fuel r)
unfolding lex_loop
lex_loop-Finishes zero r bs k l = (r, refl, λ i. length_zero r.pending l)
lex_loop-Finishes (suc fuel) r bs k l = elim (Bool-cases (is_empty r.pending)) [
  | inl y ↦ rw y (r, refl, λ i. is_empty-nil r.pending y)
  | inr n ↦ rw n (
      repeated-Finishes r (lex_loop fuel) (lex_round r)
        (lex_round-Ends r bs (is_empty-length r.pending n))
        (λ mid e.
          let c = lex_round-Consumes r mid bs k e in
          let bs' = AreBytes-append c.spelled mid.pending (subst AreBytes c.splits bs) in
          let k' =
            subst Counts (sym c.place_is) (moved_all-Counts c.passed (place_of r.lex_location) k) in
          let (next, same, left) =
            lex_loop-Finishes fuel mid bs' k' (omega (arith, Consumes-length c)) in
          (next, same, λ i. left (consume-eof r mid e ∙ i))))
]

-- From bytes and a place counted from 1, lex_available returns without an error, and at the end of
-- the input it leaves nothing pending.
pub lex_available-total :
    (r : Lexer)
    → AreBytes r.pending
    → Counts (place_of r.lex_location)
    → (next : Lexer) × (lex_available r ≡ ok next) × (r.input_eof ≡ true → next.pending ≡ [])
unfolding lex_available with_end
lex_available-total r bs k = elim (Bool-cases (is_empty r.input)) [
  | inl y ↦ rw y (
      lex_loop-Finishes (length r.pending) (record r { input = end_token r.lex_location ∷ [] }) bs k
        (omega arith))
  | inr n ↦ rw n (lex_loop-Finishes (length r.pending) r bs k (omega arith))
]
