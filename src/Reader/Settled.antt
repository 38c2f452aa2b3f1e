-- ===== src/Reader/Settled.antt =====
-- The whole loop of `lex_available`.
use re_poplan.Prelude.{
  ℕ, zero, suc, ◌≤◌, ◌≡◌, ◌∙◌, refl, sym, ap, arith, true, false, List, [], ◌∷◌, ◌++◌, ◌==◌, length,
  length-append, Bool-cases, inl, inr, ◌⊎◌,
}
use mathlib.Core.List.{append_assoc}
use mathlib.Core.Path.{subst}
use re_poplan.Value.{Result, ok, err, >>=-eq-ok, need_input, need_list, out_of_range, fault}
use re_poplan.Utf8.{encode, encode_all, decode}
use re_poplan.Utf8.Decoded.{AreBytes}
use re_poplan.State.{Text, Token}
use re_poplan.Tokenizer.{first_place}
use re_poplan.Tokenizer.Places.{Place}
use re_poplan.Tokenizer.Progress.{moved_all, moved_all-append}
use re_poplan.Reader.{
  Lexer, walk, place_of, last_place, Round, walked, tokenized, lex_round, fail_decoding, is_empty,
  repeated, lex_loop, with_failure, lex_available, with_end, end_token,
}
use re_poplan.Reader.Walk.{Counts, moved_all-Counts, ok_injective}
use re_poplan.Reader.Consumed.{Consumes, lex_round-Consumes}

-- The loop stopped: nothing is pending, or another round leaves the reader as it is.
abbrev pub Settled : Lexer → Type 0
Settled r = (r.pending ≡ []) ⊎ (lex_round r ≡ ok (r, false))

-- What is not passed is pending still, or was dropped for an error.
pub record Reads (r next : Lexer) : Type 0 where
  pub passed : List ℕ
  pub spelled : List ℕ
  pub left : List ℕ
  pub spells : encode_all passed ≡ ok spelled
  pub splits : r.pending ≡ spelled ++ left
  pub place_is : place_of next.lex_location ≡ moved_all passed (place_of r.lex_location)
  pub is_left : (next.pending ≡ left) ⊎ (next.pending ≡ [])

-- A round that stops.
abbrev Stopped : Lexer → Lexer → Type 0
Stopped r next = (next ≡ r) ⊎ ((next.pending ≡ []) × (next.lex_location ≡ r.lex_location))

fail_decoding-Stopped : (message : Text) (r : Lexer) → Stopped r (fail_decoding message r)
unfolding fail_decoding
fail_decoding-Stopped [] r = inl refl
fail_decoding-Stopped (c ∷ message) r = inr (refl, refl)

walked-Stopped :
    (message : Text) (r next : Lexer) (ts : List Token) (w : Place) (n : ℕ)
    → walked message r ts (w, n) ≡ (next, false)
    → Stopped r next
unfolding walked
walked-Stopped message r next ts w n h = elim (Bool-cases (n == 0)) [
  | inl y ↦
      let same : fail_decoding message r ≡ next = cc (rw y at h) in
      subst (Stopped r) same (fail_decoding-Stopped message r)
  | inr m ↦ absurd (cc (rw m at h))
]

tokenized-Stopped :
    (message : Text) (available : List ℕ) (r next : Lexer) (x : Result (List Token))
    → tokenized message available r x ≡ ok (next, false)
    → Stopped r next
unfolding tokenized
tokenized-Stopped message available r next (err need_input) h =
    let same : fail_decoding message r ≡ next = cc h in
    subst (Stopped r) same (fail_decoding-Stopped message r)
tokenized-Stopped message available r next (err (fault t)) h =
    let same : with_failure t r ≡ next = cc h in subst (Stopped r) same (inr (refl, refl))
tokenized-Stopped message available r next (err (need_list v)) h = absurd (cc h)
tokenized-Stopped message available r next (err out_of_range) h = absurd (cc h)
tokenized-Stopped message available r next (ok tokens) h =
    let (chars, ec, h') = >>=-eq-ok (decode available) _ h in
    let ((w, n), ew, h'') = >>=-eq-ok (walk (last_place tokens) chars first_place 0) _ h' in
    walked-Stopped message r next tokens w n (ok_injective h'')

lex_round-Stopped : (r next : Lexer) → lex_round r ≡ ok (next, false) → Stopped r next
unfolding lex_round
lex_round-Stopped r next h = tokenized-Stopped _ _ r next _ h

stays :
    (r next : Lexer)
    → (next.pending ≡ r.pending) ⊎ (next.pending ≡ [])
    → next.lex_location ≡ r.lex_location
    → Reads r next
unfolding encode_all moved_all
stays r next p l = record {
  passed = [];
  spelled = [];
  left = r.pending;
  spells = refl;
  splits = refl;
  place_is = ap place_of l;
  is_left = p;
}

Stopped-Reads :
    (r next : Lexer) → lex_round r ≡ ok (next, false) → Stopped r next → Reads r next × Settled next
Stopped-Reads r next h (inl e) = (
  stays r next (inl (ap (λ s. s.pending) e)) (ap (λ s. s.lex_location) e),
  inr (subst (λ s. lex_round s ≡ ok (next, false)) (sym e) h),
)
Stopped-Reads r next h (inr (p, l)) = (stays r next (inr p) l, inl p)

pub AreBytes-append : (s t : List ℕ) → AreBytes (s ++ t) → AreBytes t
AreBytes-append [] t h = h
AreBytes-append (b ∷ s) t (_, h) = AreBytes-append s t h

pub Consumes-length :
    {r next : Lexer} → Consumes r next → suc (length next.pending) ≤ length r.pending
Consumes-length {r} {next} c =
    omega (arith, ap length c.splits, length-append c.spelled next.pending, c.is_some)

encode_all-append :
    (cs ds s t : List ℕ)
    → encode_all cs ≡ ok s
    → encode_all ds ≡ ok t
    → encode_all (cs ++ ds) ≡ ok (s ++ t)
unfolding encode_all
encode_all-append [] ds s t h k = k ∙ ap (λ u. ok (u ++ t)) (ok_injective h)
encode_all-append (c ∷ cs) ds s t h k =
    let (u, eu, h') = >>=-eq-ok (encode c) _ h in
    let (v, ev, e) = >>=-eq-ok (encode_all cs) _ h' in
    let whole : u ++ (v ++ t) ≡ s ++ t =
      sym (append_assoc u v t) ∙ ap (λ q. q ++ t) (ok_injective e) in
    rw (eu, encode_all-append cs ds v t ev k) (ap ok whole)

Consumes-Reads : {r mid next : Lexer} → Consumes r mid → Reads mid next → Reads r next
Consumes-Reads {r} {mid} {next} c h = record {
  passed = c.passed ++ h.passed;
  spelled = c.spelled ++ h.spelled;
  left = h.left;
  spells = encode_all-append c.passed h.passed c.spelled h.spelled c.spells h.spells;
  splits = c.splits ∙ ap (◌++◌ c.spelled) h.splits ∙ sym (append_assoc c.spelled h.spelled h.left);
  place_is =
      h.place_is
      ∙ ap (moved_all h.passed) c.place_is
      ∙ sym (moved_all-append c.passed h.passed (place_of r.lex_location));
  is_left = h.is_left;
}

pub is_empty-nil : (s : List ℕ) → is_empty s ≡ true → s ≡ []
is_empty-nil [] h = refl
is_empty-nil (c ∷ s) h = absurd (cc h)

pub length_zero : (s : List ℕ) → length s ≤ 0 → s ≡ []
length_zero [] h = refl
length_zero (c ∷ s) h = absurd (omega arith)

nothing_pending : (r next : Lexer) → r.pending ≡ [] → r ≡ next → Reads r next × Settled next
nothing_pending r next p e = (
  stays r next (inl (sym (ap (λ s. s.pending) e))) (sym (ap (λ s. s.lex_location) e)),
  inl (sym (ap (λ s. s.pending) e) ∙ p),
)

repeated-eq-ok :
    (more : Lexer → Result Lexer) (next : Lexer) (x : Result Round)
    → repeated more x ≡ ok next
    → ((mid : Lexer) × (x ≡ ok (mid, true)) × (more mid ≡ ok next)) ⊎ (x ≡ ok (next, false))
repeated-eq-ok more next (err e) h = absurd (cc h)
repeated-eq-ok more next (ok (r, true)) h = inl (r, refl, h)
repeated-eq-ok more next (ok (r, false)) h = inr (ap (λ s. ok (s, false)) (ok_injective h))

lex_loop-Reads :
    (fuel : ℕ) (r next : Lexer)
    → AreBytes r.pending
    → Counts (place_of r.lex_location)
    → length r.pending ≤ fuel
    → lex_loop fuel r ≡ ok next
    → Reads r next × Settled next
unfolding lex_loop
lex_loop-Reads zero r next bs k l h =
    nothing_pending r next (length_zero r.pending l) (ok_injective h)
lex_loop-Reads (suc fuel) r next bs k l h = elim (Bool-cases (is_empty r.pending)) [
  | inl y ↦ nothing_pending r next (is_empty-nil r.pending y) (ok_injective (rw y at h))
  | inr n ↦ elim (repeated-eq-ok (lex_loop fuel) next (lex_round r) (rw n at h)) [
    | inl (mid, e, go) ↦
        let c = lex_round-Consumes r mid bs k e in
        let bs' = AreBytes-append c.spelled mid.pending (subst AreBytes c.splits bs) in
        let k' =
          subst Counts (sym c.place_is) (moved_all-Counts c.passed (place_of r.lex_location) k) in
        let (read, settled) =
          lex_loop-Reads fuel mid next bs' k' (omega (arith, Consumes-length c)) go in
        (Consumes-Reads c read, settled)
    | inr e ↦ Stopped-Reads r next e (lex_round-Stopped r next e)
  ]
]

with_input-Reads :
    (r next : Lexer) (tokens : List Token) → Reads (record r { input = tokens }) next → Reads r next
with_input-Reads r next tokens h = record {
  passed = h.passed;
  spelled = h.spelled;
  left = h.left;
  spells = h.spells;
  splits = h.splits;
  place_is = h.place_is;
  is_left = h.is_left;
}

-- If lex_available returns, from bytes and a place counted from 1, it has passed characters that
-- are the first of the pending bytes, the place has moved by exactly these characters, and behind
-- them the bytes are pending still or were dropped; and nothing is pending, or another round would
-- stop and change nothing.
pub lex_available-Reads :
    (r next : Lexer)
    → AreBytes r.pending
    → Counts (place_of r.lex_location)
    → lex_available r ≡ ok next
    → Reads r next × Settled next
unfolding lex_available with_end
lex_available-Reads r next bs k h = elim (Bool-cases (is_empty r.input)) [
  | inl y ↦
      let tokens = end_token r.lex_location ∷ [] in
      let (read, settled) =
        lex_loop-Reads (length r.pending) (record r { input = tokens }) next bs k (omega arith)
          (rw y at h) in
      (with_input-Reads r next tokens read, settled)
  | inr n ↦ lex_loop-Reads (length r.pending) r next bs k (omega arith) (rw n at h)
]
