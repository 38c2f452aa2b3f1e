-- ===== src/Utf8/RoundTrip.antt =====
-- Decoding inverts encoding, encoding inverts decoding, and a text cut inside a character waits for
-- more input.
use mathlib.Core.Path.{subst}
use mathlib.Core.List.{append-nil}
use re_poplan.Prelude.{
  ℕ, zero, suc, ◌+◌, ◌-◌, ◌≤◌, ◌<◌, ◌≡◌, ◌≢◌, ◌∙◌, sym, refl, List, [], ◌∷◌, ◌++◌, arith, length,
  length-append, take, take-length, take-length_append, ap, inl, inr, none, some,
}
use re_poplan.Value.{need_input, ok, err, Result-cases}
use re_poplan.Utf8.{
  encode, encode_all, decode_scalar, Decoding, decode_loop, decoding, decode, finish,
}
use re_poplan.Utf8.Decoded.{AreBytes, decode_scalar-Spelled}
use re_poplan.Utf8.Loop.{behind, decode_loop-encode_all, decode_scalar-length}

-- In front of anything, the bytes that `encode` writes for scalars are decoded to these scalars, and
-- the decoding goes on with what follows.
pub decoding-encode_all :
    (cs s rest : List ℕ) → encode_all cs ≡ ok s → decoding (s ++ rest) ≡ behind cs s (decoding rest)
unfolding decoding
decoding-encode_all cs s rest h =
    decode_loop-encode_all cs s rest (length (s ++ rest)) h (omega arith)

-- Decoding the bytes that encoding a text returned gives the text back.
pub decode-encode_all : (cs s : List ℕ) → encode_all cs ≡ ok s → decode s ≡ ok cs
unfolding decode decode_loop
decode-encode_all cs s h =
    let e = decoding-encode_all cs s [] h in
    ground
      (arith, subst (λ t. decoding t ≡ behind cs s (decoding [])) (append-nil s) e, append-nil cs)

encode_all-decode_loop :
    (fuel : ℕ) (s : List ℕ)
    → AreBytes s
    → length s ≤ fuel
    → (encode_all (decode_loop fuel s).out ≡ ok (take (decode_loop fuel s).valid_bytes s))
      × ((decode_loop fuel s).stop ≡ none → (decode_loop fuel s).valid_bytes ≡ length s)
unfolding decode_loop encode_all
encode_all-decode_loop fuel [] bs short = (refl, λ h. refl)
encode_all-decode_loop zero (b ∷ s) bs short = absurd (omega arith)
encode_all-decode_loop (suc fuel) (b ∷ s) (byte, bs) short =
    elim (Result-cases (decode_scalar b s)) [
      | inl ((c, rest), e) ↦
          let sp = decode_scalar-Spelled b c rest byte s bs e in
          let (ih, whole) =
            encode_all-decode_loop fuel rest sp.left_bytes
              (omega (arith, decode_scalar-length b s c rest e)) in
          let v = (decode_loop fuel rest).valid_bytes in
          let count = length-append sp.others rest in
          let size : length s + 1 - length rest + v ≡ suc (length sp.others + v) =
            omega (arith, ap length sp.split, count) in
          let same : sp.others ++ take v rest ≡ take (length sp.others + v) s =
            sym (take-length_append sp.others rest v)
            ∙ ap (take (length sp.others + v)) (sym sp.split) in
          rw (e, decode_loop)
            (
              rw (size, sp.written, ih) (ap (λ t. ok (b ∷ t)) same),
              λ stop. omega (arith, whole stop, ap length sp.split, count),
            )
      | inr (x, e) ↦ rw (e, decode_loop) (refl, λ h. cc)
    ]

-- What a byte string was decoded to before the loop stopped, for whatever reason, is encoded as
-- exactly the bytes that were counted as valid.
pub encode_all-decoding :
    (s : List ℕ) → AreBytes s → encode_all (decoding s).out ≡ ok (take (decoding s).valid_bytes s)
unfolding decoding
encode_all-decoding s bs = (encode_all-decode_loop (length s) s bs (omega arith)).0

finish-eq-ok : (d : Decoding) (cs : List ℕ) → finish d ≡ ok cs → (d.stop ≡ none) × (d.out ≡ cs)
finish-eq-ok d cs h = ground arith

-- If decoding a byte string returns scalars, encoding these gives exactly the byte string.
pub encode_all-decode : (s cs : List ℕ) → AreBytes s → decode s ≡ ok cs → encode_all cs ≡ ok s
unfolding decode decoding
encode_all-decode s cs bs h =
    let (e, whole) = encode_all-decode_loop (length s) s bs (omega arith) in
    let (ended, same) = finish-eq-ok (decode_loop (length s) s) cs h in
    subst (λ t. encode_all t ≡ ok s) same
      (e ∙ ap ok (ap (λ n. take n s) (whole ended) ∙ take-length s))

decode_scalar_cut :
    (c b : ℕ) (t p : List ℕ)
    → encode c ≡ ok (b ∷ t)
    → length p < length t
    → decode_scalar b p ≡ err need_input
unfolding encode decode_scalar
decode_scalar_cut c b t p h short = ground arith

-- A text that ends inside a character, at any place, is decoded up to that character, counts the
-- bytes up to it as valid, and asks for more input.
pub decoding_cut :
    (cs s u q : List ℕ) (c : ℕ)
    → encode_all cs ≡ ok s
    → encode c ≡ ok (u ++ q)
    → u ≢ []
    → q ≢ []
    → decoding (s ++ u) ≡ record { out = cs; valid_bytes = length s; stop = some need_input }
unfolding decoding decode_loop
decoding_cut cs s [] q c hs hc hu hq = absurd (hu refl)
decoding_cut cs s (b ∷ u) [] c hs hc hu hq = absurd (hq refl)
decoding_cut cs s (b ∷ u) (d ∷ q) c hs hc hu hq =
    let e = decoding-encode_all cs s (b ∷ u) hs in
    let cut = decode_scalar_cut c b (u ++ d ∷ q) u hc (omega (arith, length-append u (d ∷ q))) in
    e ∙ rw (cut, decode_loop) (ground (arith, append-nil cs))
