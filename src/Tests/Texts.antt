-- ===== src/Tests/Texts.antt =====
-- UTF-8 and interned spellings on concrete texts.
use mathlib.Core.Logic.{◌↔◌}
use re_poplan.Prelude.{ℕ, ◌≤◌, ◌≡◌, refl, List, [], ◌∷◌, ◌++◌, some, length, take, arith}
use re_poplan.Value.{need_input, ok, throw}
use re_poplan.Utf8.{encode, encode_all, decode_scalar, decode_loop, decoding, decode}
use re_poplan.Utf8.RoundTrip.{
  decode-encode_all, encode_all-decoding, encode_all-decode, decoding_cut,
}
use re_poplan.Utf8.Scalars.{AreScalars, decode-AreScalars}
use re_poplan.Names.{folded, canonical, fold, homoglyph, upper}
use re_poplan.Names.Laws.{canonical-canonical, canonical_short, canonical_total}
use re_poplan.Names.Letters.{SameLetters, canonical_iff}

-- "aж€😀"
abbrev sample : List ℕ
sample = 0x61 ∷ 0x436 ∷ 0x20ac ∷ 0x1f600 ∷ []

abbrev sample_bytes : List ℕ
sample_bytes = 0x61 ∷ 0xd0 ∷ 0xb6 ∷ 0xe2 ∷ 0x82 ∷ 0xac ∷ 0xf0 ∷ 0x9f ∷ 0x98 ∷ 0x80 ∷ []

encode_sample : encode_all sample ≡ ok sample_bytes
unfolding encode_all encode
encode_sample = refl

decode-sample : decode sample_bytes ≡ ok sample
unfolding decode decode_loop decode_scalar
decode-sample = refl

-- An overlong spelling of "/".
decode_overlong : decode (0xc0 ∷ 0xaf ∷ []) ≡ throw "invalid UTF-8 scalar"
unfolding decode decode_loop decode_scalar
decode_overlong = refl

-- A surrogate.
decode_surrogate : decode (0xed ∷ 0xa0 ∷ 0x80 ∷ []) ≡ throw "invalid UTF-8 scalar"
unfolding decode decode_loop decode_scalar
decode_surrogate = refl

decode-encode_all_example : decode sample_bytes ≡ ok sample
decode-encode_all_example = decode-encode_all sample sample_bytes encode_sample

-- A text broken off by a stray byte.
abbrev broken : List ℕ
broken = 0xd0 ∷ 0xb6 ∷ 0x41 ∷ 0xff ∷ 0x42 ∷ []

encode_all-decoding_example :
    encode_all (decoding broken).out ≡ ok (take (decoding broken).valid_bytes broken)
encode_all-decoding_example = encode_all-decoding broken (omega arith)

encode_all-decode_example : encode_all sample ≡ ok sample_bytes
encode_all-decode_example = encode_all-decode sample_bytes sample (omega arith) decode-sample

encode_euro : encode 0x20ac ≡ ok ((0xe2 ∷ 0x82 ∷ []) ++ 0xac ∷ [])
unfolding encode
encode_euro = refl

encode_letter : encode_all (0x61 ∷ []) ≡ ok (0x61 ∷ [])
unfolding encode_all encode
encode_letter = refl

-- "a" and two of the three bytes of the euro sign
decoding_cut_example :
    decoding ((0x61 ∷ []) ++ 0xe2 ∷ 0x82 ∷ [])
    ≡ record { out = 0x61 ∷ []; valid_bytes = length {A = ℕ} (0x61 ∷ []); stop = some need_input }
decoding_cut_example =
    decoding_cut (0x61 ∷ []) (0x61 ∷ []) (0xe2 ∷ 0x82 ∷ []) (0xac ∷ []) 0x20ac encode_letter
      encode_euro (cc) (cc)

decode-AreScalars_example : AreScalars sample
decode-AreScalars_example = decode-AreScalars sample_bytes sample (omega arith) decode-sample

-- "Списокк", with Cyrillic letters, of which the first six count
abbrev russian : List ℕ
russian = 0x421 ∷ 0x43f ∷ 0x438 ∷ 0x441 ∷ 0x43e ∷ 0x43a ∷ 0x43a ∷ []

abbrev russian_bytes : List ℕ
russian_bytes =
    0xd0 ∷ 0xa1 ∷ 0xd0 ∷ 0xbf ∷ 0xd0 ∷ 0xb8 ∷ 0xd1 ∷ 0x81 ∷ 0xd0 ∷ 0xbe ∷ 0xd0 ∷ 0xba ∷ 0xd0 ∷ 0xba
    ∷ []

-- "CПИCOK" with Latin C, O and K
abbrev russian_name : List ℕ
russian_name = 0x43 ∷ 0xd0 ∷ 0x9f ∷ 0xd0 ∷ 0x98 ∷ 0x43 ∷ 0x4f ∷ 0x4b ∷ []

decode-russian : decode russian_bytes ≡ ok russian
unfolding decode decode_loop decode_scalar
decode-russian = refl

canonical_russian : canonical russian_bytes ≡ ok russian_name
unfolding canonical folded fold homoglyph upper decode decode_loop decode_scalar encode_all encode
canonical_russian = refl

-- "cпиcok", with Latin letters where the other has Cyrillic ones
abbrev mixed : List ℕ
mixed = 0x63 ∷ 0x43f ∷ 0x438 ∷ 0x63 ∷ 0x6f ∷ 0x6b ∷ []

abbrev mixed_bytes : List ℕ
mixed_bytes = 0x63 ∷ 0xd0 ∷ 0xbf ∷ 0xd0 ∷ 0xb8 ∷ 0x63 ∷ 0x6f ∷ 0x6b ∷ []

decode-mixed : decode mixed_bytes ≡ ok mixed
unfolding decode decode_loop decode_scalar
decode-mixed = refl

canonical_mixed : canonical mixed_bytes ≡ ok russian_name
unfolding canonical folded fold homoglyph upper decode decode_loop decode_scalar encode_all encode
canonical_mixed = refl

canonical-canonical_example : canonical russian_name ≡ ok russian_name
canonical-canonical_example = canonical-canonical russian_bytes russian_name canonical_russian

canonical_short_example : (cs : List ℕ) × (decode russian_name ≡ ok cs) × (length cs ≤ 6)
canonical_short_example = canonical_short russian_bytes russian_name canonical_russian

canonical_iff_example : (russian_name ≡ russian_name) ↔ SameLetters (take 6 russian) (take 6 mixed)
canonical_iff_example =
    canonical_iff russian_bytes mixed_bytes russian_name russian_name russian mixed
      canonical_russian canonical_mixed decode-russian decode-mixed

canonical_total_example : (t : List ℕ) × (canonical russian_bytes ≡ ok t)
canonical_total_example = canonical_total russian_bytes russian (omega arith) decode-russian
