-- ===== src/Reader/Consumed.antt =====
-- What a round of `lex_available` takes from the bytes that are pending.
use re_poplan.Prelude.{
  ℕ, ◌+◌, ◌<◌, ◌≡◌, ◌≢◌, ◌∙◌, refl, sym, ap, arith, Bool, true, List, [], ◌∷◌, ◌++◌, ◌==◌, length,
  take, drop, take-append-drop, Bool-cases, inl, inr,
}
use mathlib.Core.List.{append_assoc}
use mathlib.Core.Path.{subst}
use re_poplan.Value.{Result, ok, err, >>=-eq-ok, need_input, need_list, out_of_range, fault}
use re_poplan.Utf8.{encode, encode_all, decode, decoding}
use re_poplan.Utf8.Decoded.{AreBytes}
use re_poplan.Utf8.RoundTrip.{encode_all-decoding, decode-encode_all}
use re_poplan.State.{Text, Location, Token}
use re_poplan.Tokenizer.{first_place, tokens_of, tokens_from, tokenize, end_at}
use re_poplan.Tokenizer.Places.{Place}
use re_poplan.Tokenizer.Progress.{moved_all, Passes, Advances}
use re_poplan.Tokenizer.Stops.{tokens_from-Advances}
use re_poplan.Reader.{
  Lexer, walk, shifted, place_of, last_place, consume, walked, tokenized, lex_round,
}
use re_poplan.Reader.Walk.{
  ok_injective, walk-append, Counts, shifted-moved_all, moved_all-Counts, advanced-shifted,
}

pub last_place-append :
    (ts : List Token) (name : Text) (w : Place) → last_place (ts ++ end_at name w ∷ []) ≡ w
unfolding last_place
last_place-append [] name w = refl
last_place-append (t ∷ []) name w = refl
last_place-append (s ∷ t ∷ ts) name w = last_place-append (t ∷ ts) name w

pub walked-goes-on :
    (message : Text) (r next : Lexer) (ts : List Token) (w : Place) (n : ℕ)
    → walked message r ts (w, n) ≡ (next, true)
    → (n ≢ 0) × (next ≡ consume r ts (w, n))
unfolding walked
walked-goes-on message r next ts w n h = elim (Bool-cases (n == 0)) [
  | inl y ↦ absurd (cc (rw y at h))
  | inr m ↦ (ground arith, cc (rw m at h))
]

pub tokenized-goes-on :
    (message : Text) (available : List ℕ) (r next : Lexer) (x : Result (List Token))
    → tokenized message available r x ≡ ok (next, true)
    → (tokens : List Token) × (chars : List ℕ) × (w : Place) × (n : ℕ) × (x ≡ ok tokens)
      × (decode available ≡ ok chars)
      × (walk (last_place tokens) chars first_place 0 ≡ ok (w, n))
      × (walked message r tokens (w, n) ≡ (next, true))
unfolding tokenized
tokenized-goes-on message available r next (err need_input) h = absurd (cc h)
tokenized-goes-on message available r next (err (fault t)) h = absurd (cc h)
tokenized-goes-on message available r next (err (need_list v)) h = absurd (cc h)
tokenized-goes-on message available r next (err out_of_range) h = absurd (cc h)
tokenized-goes-on message available r next (ok tokens) h =
    let (chars, ec, h') = >>=-eq-ok (decode available) _ h in
    let ((w, n), ew, h'') = >>=-eq-ok (walk (last_place tokens) chars first_place 0) _ h' in
    (tokens, chars, w, n, refl, ec, ew, cc h'')

tokenize-eq-ok :
    (source : List ℕ) (name : Text) (eof : Bool) (limit : ℕ) (tokens : List Token)
    → tokenize source name eof limit ≡ ok tokens
    → (chars : List ℕ) × (ts : List Token) × (rest : List ℕ) × (stop : Place) × (decode source
        ≡ ok chars)
      × Advances chars first_place (ok (ts, (rest, stop)))
      × (tokens ≡ ts ++ end_at name stop ∷ [])
unfolding tokenize tokens_of
tokenize-eq-ok source name eof limit tokens h =
    let (chars, ec, h') = >>=-eq-ok (decode source) _ h in
    let ((ts, (rest, stop)), et, h'') =
      >>=-eq-ok (tokens_from (length chars) eof name limit 0 chars first_place) _ h' in
    (
      chars,
      ts,
      rest,
      stop,
      ec,
      subst (Advances chars first_place) et
          (tokens_from-Advances (length chars) eof name limit 0 chars first_place),
      cc h'',
    )

-- The reader `next` has taken a character or more off the pending bytes of `r`, and counted their lines
-- and columns.
pub record Consumes (r next : Lexer) : Type 0 where
  pub passed : List ℕ
  pub spelled : List ℕ
  pub spells : encode_all passed ≡ ok spelled
  pub is_some : 0 < length spelled
  pub splits : r.pending ≡ spelled ++ next.pending
  pub place_is : place_of next.lex_location ≡ moved_all passed (place_of r.lex_location)

encode_all-append-eq-ok :
    (cs ds s : List ℕ)
    → encode_all (cs ++ ds) ≡ ok s
    → (t : List ℕ) × (u : List ℕ) × (encode_all cs ≡ ok t) × (s ≡ t ++ u) × (encode_all ds ≡ ok u)
unfolding encode_all
encode_all-append-eq-ok [] ds s h = ([], s, refl, refl, h)
encode_all-append-eq-ok (c ∷ cs) ds s h =
    let (v, ev, h') = >>=-eq-ok (encode c) _ h in
    let (q, eq, e) = >>=-eq-ok (encode_all (cs ++ ds)) _ h' in
    let (t, u, et, cut, er) = encode_all-append-eq-ok cs ds q eq in
    (
      v ++ t,
      u,
      rw (ev, et) refl,
      sym (ok_injective e) ∙ ap (◌++◌ v) cut ∙ sym (append_assoc v t u),
      er,
    )

pub drop-append : (s t : List ℕ) → drop (length s) (s ++ t) ≡ t
drop-append [] t = refl
drop-append (b ∷ s) t = drop-append s t

pub shifted-first : (l : Location) → Counts (place_of l) → shifted l first_place ≡ place_of l
unfolding shifted
shifted-first l (h, k) = ground arith

consume-Consumes :
    (r : Lexer) (tokens : List Token) (passed s q : List ℕ)
    → encode_all passed ≡ ok s
    → r.pending ≡ s ++ q
    → Counts (place_of r.lex_location)
    → 0 < length s
    → Consumes r (consume r tokens (moved_all passed first_place, length s))
unfolding consume
consume-Consumes r tokens passed s q e cut k l₀ =
    let l = r.lex_location in
    let whole : s ++ q ≡ s ++ drop (length s) (s ++ q) = ap (◌++◌ s) (sym (drop-append s q)) in
    record {
      passed = passed;
      spelled = s;
      spells = e;
      is_some = l₀;
      splits = cut ∙ subst (λ t. s ++ q ≡ s ++ drop (length s) t) (sym cut) whole;
      place_is =
          advanced-shifted l (moved_all passed first_place)
            (moved_all-Counts passed first_place (omega arith, omega arith)) k
          ∙ shifted-moved_all l passed first_place (omega arith, omega arith) k
          ∙ ap (moved_all passed) (shifted-first l k);
    }

pub walk_is :
    (cs available rest : List ℕ) (stop : Place)
    → encode_all cs ≡ ok available
    → (p : Passes cs first_place rest stop)
    → (s : List ℕ) × (u : List ℕ) × (encode_all p.passed ≡ ok s)
      × (available ≡ s ++ u)
      × (walk stop cs first_place 0 ≡ ok (moved_all p.passed first_place, 0 + length s))
      × (encode_all rest ≡ ok u)
walk_is cs available rest stop e p =
    let (s, u, es, cut, er) =
      encode_all-append-eq-ok p.passed rest available
        (subst (λ t. encode_all t ≡ ok available) p.splits e) in
    (
      s,
      u,
      es,
      cut,
      subst (λ t. walk stop t first_place 0 ≡ ok (moved_all p.passed first_place, 0 + length s))
          (sym p.splits)
          (subst
            (λ v.
              walk v (p.passed ++ rest) first_place 0
              ≡ ok (moved_all p.passed first_place, 0 + length s))
            (sym p.place_is) (walk-append p.passed rest s first_place 0 es)),
      er,
    )

walk_stop :
    (cs available rest : List ℕ) (stop : Place) (w : Place) (n : ℕ)
    → encode_all cs ≡ ok available
    → Passes cs first_place rest stop
    → walk stop cs first_place 0 ≡ ok (w, n)
    → (passed : List ℕ) × (s : List ℕ) × (u : List ℕ) × (encode_all passed ≡ ok s)
      × (available ≡ s ++ u)
      × (w ≡ moved_all passed first_place)
      × (n ≡ length s)
walk_stop cs available rest stop w n e p h =
    let (s, u, es, cut, both, er) = walk_is cs available rest stop e p in
    let same = ok_injective (sym h ∙ both) in
    (p.passed, s, u, es, cut, ap (λ k. k.0) same, omega (arith, ap (λ k. k.1) same))

walked-Consumes :
    (r next : Lexer) (message : Text) (tokens : List Token) (cs available rest q : List ℕ)
    (stop w : Place) (n : ℕ)
    → encode_all cs ≡ ok available
    → r.pending ≡ available ++ q
    → Passes cs first_place rest stop
    → walk stop cs first_place 0 ≡ ok (w, n)
    → walked message r tokens (w, n) ≡ (next, true)
    → Counts (place_of r.lex_location)
    → Consumes r next
walked-Consumes r next message tokens cs available rest q stop w n e split p h go k =
    let (passed, s, u, es, cut, ew, en) = walk_stop cs available rest stop w n e p h in
    let (some_read, is_next) = walked-goes-on message r next tokens w n go in
    let whole : r.pending ≡ s ++ (u ++ q) = split ∙ ap (λ t. t ++ q) cut ∙ append_assoc s u q in
    rw (is_next, ew, en)
      (consume-Consumes r tokens passed s (u ++ q) es whole k (omega (arith, some_read, en)))

-- A round that goes on takes characters off the pending bytes and counts them.
pub lex_round-Consumes :
    (r next : Lexer)
    → AreBytes r.pending
    → Counts (place_of r.lex_location)
    → lex_round r ≡ ok (next, true)
    → Consumes r next
unfolding lex_round Advances
lex_round-Consumes r next bs k h =
    let d = decoding r.pending in
    let available = take d.valid_bytes r.pending in
    let (tokens, chars, w, n, et, ec, ew, go) = tokenized-goes-on _ _ r next _ h in
    let (cs, ts, rest, stop, es, passes, cut) = tokenize-eq-ok _ _ _ _ tokens et in
    let eo = encode_all-decoding r.pending bs in
    let eb = decode-encode_all d.out available eo in
    let one : cs ≡ d.out = ok_injective (sym es ∙ eb) in
    let two : chars ≡ d.out = ok_injective (sym ec ∙ eb) in
    let end : last_place tokens ≡ stop =
      ap last_place cut ∙ last_place-append ts r.pending_name stop in
    walked-Consumes r next _ tokens d.out available rest (drop d.valid_bytes r.pending) stop w n eo
      (sym (take-append-drop d.valid_bytes r.pending))
      (subst (λ t. Passes t first_place rest stop) one passes)
      (subst (λ t. walk stop t first_place 0 ≡ ok (w, n)) two
        (subst (λ v. walk v chars first_place 0 ≡ ok (w, n)) end ew))
      go k
