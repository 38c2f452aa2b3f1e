-- ===== src/Utf8/Loop.antt =====
-- The loop of `decode`: its fuel, and how it goes over a string that `encode` wrote.
use mathlib.Core.List.{append_assoc}
use re_poplan.Prelude.{
  ℕ, zero, suc, ◌+◌, ◌-◌, ◌*◌, ◌%◌, ◌≤◌, ◌<◌, ◌≡◌, ◌∙◌, refl, false, List, [], ◌∷◌, ◌++◌, arith,
  length, length-append, ap, inl, inr,
}
use re_poplan.Value.{Result, ok, err, >>=-eq-ok, Result-cases}
use re_poplan.Utf8.{
  invalid_scalar, encode, encode_all, lead, continuation, decode_scalar, Decoding, decode_loop,
}
use re_poplan.Utf8.Encoded.{encode-Written}

continuation-length :
    (n c : ℕ) (s : List ℕ) (d : ℕ) (rest : List ℕ)
    → continuation n c s ≡ ok (d, rest)
    → length rest + n ≡ length s
unfolding continuation
continuation-length zero c s d rest h =
    let e : s ≡ rest = ground arith in omega (arith, ap length e)
continuation-length (suc n) c [] d rest h = ground arith
continuation-length (suc n) c (x ∷ s) d rest h =
    ground (arith, continuation-length n (c * 64 + x % 64) s d rest)

pub decode_scalar-length :
    (b : ℕ) (s : List ℕ) (c : ℕ) (rest : List ℕ)
    → decode_scalar b s ≡ ok (c, rest)
    → length rest ≤ length s
unfolding decode_scalar lead
decode_scalar-length b s c rest h = ground (
  arith,
  continuation-length 1 (b % 32) s c rest,
  continuation-length 2 (b % 16) s c rest,
  continuation-length 3 (b % 8) s c rest,
  ap {B = ℕ} (λ (r : Result (ℕ × List ℕ)). elim r [ ok (_, t) ↦ length t | err _ ↦ 0 ]) h,
)

-- The loop's record once its first scalar is read.
abbrev pub after : ℕ → List ℕ → List ℕ → Decoding → Decoding
after c s rest r = record {
  out = c ∷ r.out;
  valid_bytes = length s + 1 - length rest + r.valid_bytes;
  stop = r.stop;
}

pub decode_loop-step :
    (fuel b : ℕ) (s : List ℕ) (c : ℕ) (rest : List ℕ)
    → decode_scalar b s ≡ ok (c, rest)
    → decode_loop (suc fuel) (b ∷ s) ≡ after c s rest (decode_loop fuel rest)
unfolding decode_loop
decode_loop-step fuel b s c rest h = rw (h, decode_loop)

-- Once the fuel covers the string, more changes nothing.
pub decode_loop-fuel :
    (f g : ℕ) (s : List ℕ) → length s ≤ f → length s ≤ g → decode_loop f s ≡ decode_loop g s
unfolding decode_loop
decode_loop-fuel f g [] hf hg = refl
decode_loop-fuel zero g (b ∷ s) hf hg = absurd (omega arith)
decode_loop-fuel (suc f) zero (b ∷ s) hf hg = absurd (omega arith)
decode_loop-fuel (suc f) (suc g) (b ∷ s) hf hg = elim (Result-cases (decode_scalar b s)) [
  | inl ((c, rest), e) ↦
      let short = decode_scalar-length b s c rest e in
      rw (e, decode_loop)
        (ap (after c s rest) (decode_loop-fuel f g rest (omega arith) (omega arith)))
  | inr (x, e) ↦ rw (e, decode_loop)
]

encode_valid : (c : ℕ) (s : List ℕ) → encode c ≡ ok s → invalid_scalar c ≡ false
unfolding encode
encode_valid c s h = ground arith

-- What `encode` wrote in front of `rest` is one round of the loop.
pub decode_loop-encode :
    (c : ℕ) (s rest : List ℕ) (fuel : ℕ)
    → encode c ≡ ok s
    → length (s ++ rest) ≤ suc fuel
    → (decode_loop (suc fuel) (s ++ rest) ≡ (
        let r = decode_loop fuel rest in
        record { out = c ∷ r.out; valid_bytes = length s + r.valid_bytes; stop = r.stop }))
      × (length rest ≤ fuel)
decode_loop-encode c s rest fuel h short =
    let w = encode-Written c rest (encode_valid c s h) in
    let same : s ≡ w.first ∷ w.others = cc (w.written) in
    let size = length-append w.others rest in
    (
      rw same (
          decode_loop-step fuel w.first (w.others ++ rest) c rest w.read
          ∙ ap
              (λ (n : ℕ).
                let r = decode_loop fuel rest in
                record { out = c ∷ r.out; valid_bytes = n + r.valid_bytes; stop = r.stop })
              (omega (arith, size))),
      omega (arith, ap length same, length-append s rest),
    )

encode_pos : (c : ℕ) (s : List ℕ) → encode c ≡ ok s → 0 < length s
unfolding encode
encode_pos c s h =
    let w = encode-Written c [] (encode_valid c s h) in
    let same : s ≡ w.first ∷ w.others = cc (w.written) in omega (arith, ap length same)

-- Decoding goes on behind what is read already.
abbrev pub behind : List ℕ → List ℕ → Decoding → Decoding
behind cs s r = record { out = cs ++ r.out; valid_bytes = length s + r.valid_bytes; stop = r.stop }

pub decode_loop-encode_all :
    (cs s rest : List ℕ) (fuel : ℕ)
    → encode_all cs ≡ ok s
    → length (s ++ rest) ≤ fuel
    → decode_loop fuel (s ++ rest) ≡ behind cs s (decode_loop (length rest) rest)
unfolding encode_all
decode_loop-encode_all [] s rest fuel h short =
    let e : s ≡ [] = cc in
    rw e (
      decode_loop-fuel fuel (length rest) rest (omega (arith, ap length e, length-append s rest))
        (omega arith)
      ∙ ground arith)
decode_loop-encode_all (c ∷ cs) s rest zero h short =
    let (u, eu, h') = >>=-eq-ok (encode c) _ h in
    let (v, ev, h'') = >>=-eq-ok (encode_all cs) _ h' in
    let e : s ≡ u ++ v = cc in
    absurd (omega (arith, encode_pos c u eu, ap length e, length-append u v, length-append s rest))
decode_loop-encode_all (c ∷ cs) s rest (suc fuel) h short =
    let (u, eu, h') = >>=-eq-ok (encode c) _ h in
    let (v, ev, h'') = >>=-eq-ok (encode_all cs) _ h' in
    let e : s ≡ u ++ v = cc in
    let size = length-append u v in
    let all = length-append (u ++ v) rest in
    let (first, short') =
      decode_loop-encode c u (v ++ rest) fuel eu (rw append_assoc at (rw e at short)) in
    rw (e, append_assoc)
      (first ∙ ground (arith, decode_loop-encode_all cs v rest fuel ev short', size))
