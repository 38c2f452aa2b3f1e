-- ===== src/Utf8/Scalars.antt =====
-- Decoded texts are texts of Unicode scalars, and every such text can be encoded.
use re_poplan.Prelude.{ℕ, ◌≡◌, refl, false, List, [], ◌∷◌, ◌++◌, arith}
use re_poplan.Value.{ok, >>=-eq-ok}
use re_poplan.Utf8.{invalid_scalar, encode, encode_all, decode}
use re_poplan.Utf8.Encoded.{encode-Written}
use re_poplan.Utf8.Decoded.{AreBytes}
use re_poplan.Utf8.RoundTrip.{encode_all-decode}

abbrev pub AreScalars : List ℕ → Type 0
AreScalars [] = Unit
AreScalars (c ∷ cs) = (invalid_scalar c ≡ false) × AreScalars cs

encode-AreScalars : (cs s : List ℕ) → encode_all cs ≡ ok s → AreScalars cs
unfolding encode_all encode
encode-AreScalars [] s h = tt
encode-AreScalars (c ∷ cs) s h =
    let (u, eu, h') = >>=-eq-ok (encode c) _ h in
    let (v, ev, h'') = >>=-eq-ok (encode_all cs) _ h' in (ground arith, encode-AreScalars cs v ev)

pub encode_all_total : (cs : List ℕ) → AreScalars cs → (s : List ℕ) × (encode_all cs ≡ ok s)
unfolding encode_all
encode_all_total [] h = ([], refl)
encode_all_total (c ∷ cs) (hc, hs) =
    let w = encode-Written c [] hc in
    let (t, e) = encode_all_total cs hs in ((w.first ∷ w.others) ++ t, rw (w.written, e))

-- Decoding a byte string returns Unicode scalars only: no surrogates, nothing past U+10FFFF.
pub decode-AreScalars : (s cs : List ℕ) → AreBytes s → decode s ≡ ok cs → AreScalars cs
decode-AreScalars s cs bs h = encode-AreScalars cs s (encode_all-decode s cs bs h)
