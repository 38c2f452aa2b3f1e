-- ===== src/Utf8.antt =====
-- UTF-8 transcoding: `decode` and `encode` of standalone/src/value.cpp.
pub mod Encoded
pub mod Decoded
pub mod Loop
pub mod RoundTrip
pub mod Scalars
use re_poplan.Prelude.{
  ℕ, zero, suc, ◌+◌, ◌-◌, ◌*◌, ◌/◌, ◌%◌, ◌≡◌, refl, Bool, true, false, ◌&&◌, ◌||◌, List, [], ◌∷◌,
  ◌++◌, Option, none, some, ltb, leb, ◌==◌, if◌then◌else◌, length,
}
use re_poplan.Value.{Exception, need_input, Result, ok, err, ◌>>=◌, ◌>>◌, throw}

-- A value that no Unicode scalar has.
abbrev pub invalid_scalar : ℕ → Bool
invalid_scalar c = ltb 0x10ffff c || (leb 0xd800 c && leb c 0xdfff)

-- encode(c). For c below 0x110000, `c >> k` is `c / 2 ^ k`, `x & 63` is `x % 64`, and each `|` joins
-- bits that do not overlap.
unfoldable pub encode : ℕ → Result (List ℕ)
encode c =
    if invalid_scalar c
    then throw "invalid character"
    else if ltb c 0x80
    then ok (c ∷ [])
    else if ltb c 0x800
    then ok ((0xc0 + c / 64) ∷ (0x80 + c % 64) ∷ [])
    else if ltb c 0x10000
    then ok ((0xe0 + c / 4096) ∷ (0x80 + c / 64 % 64) ∷ (0x80 + c % 64) ∷ [])
    else ok
        ((0xf0 + c / 262144) ∷ (0x80 + c / 4096 % 64) ∷ (0x80 + c / 64 % 64) ∷ (0x80 + c % 64) ∷ [])

-- `for (auto ch : chars) text += encode(ch);`
unfoldable pub encode_all : List ℕ → Result (List ℕ)
encode_all [] = ok []
encode_all (c ∷ cs) = do s ← encode c; t ← encode_all cs; ok (s ++ t)

-- The lead byte: the bits it contributes and the number `n` of bytes that follow it. For a byte,
-- `(b & 0xe0) == 0xc0` says that its top three bits are 110, that is `b / 32 == 6`; so for the others.
unfoldable pub lead : ℕ → Result (ℕ × ℕ)
lead b =
    if ltb b 0x80
    then ok (b, 0)
    else if b / 32 == 6
    then ok (b % 32, 1)
    else if b / 16 == 14
    then ok (b % 16, 2)
    else if b / 8 == 30
    then ok (b % 8, 3)
    else throw "invalid UTF-8"

-- `for (unsigned j = 0; j < n; ++j)`. The bytes are there: `decode_scalar` has tested the size.
unfoldable pub continuation : ℕ → ℕ → List ℕ → Result (ℕ × List ℕ)
continuation zero c s = ok (c, s)
continuation (suc n) c [] = err need_input
continuation (suc n) c (d ∷ s) =
    let rest = continuation n (c * 64 + d % 64) s in
    if d / 64 == 2 then rest else throw "invalid UTF-8"

-- The least scalar that n following bytes may spell.
abbrev pub least : ℕ → ℕ
least n = if n == 1 then 0x80 else if n == 2 then 0x800 else 0x10000

-- One round of the loop of `decode`, from the byte b in front of s: the scalar, and what is left.
unfoldable pub decode_scalar : ℕ → List ℕ → Result (ℕ × List ℕ)
unfolding lead continuation
decode_scalar b s = do
  (c₀, n) ← lead b
  if n == 0 then ok (c₀, s) else if ltb (length s) n then err need_input else do
    (c, rest) ← continuation n c₀ s
    if invalid_scalar c || ltb c (least n) then throw "invalid UTF-8 scalar" else ok (c, rest)

-- What the loop of `decode` leaves behind: the scalars put out, the count stored in `*valid_bytes`,
-- and what ended it, `none` for the end of the string.
pub record Decoding : Type 0 where
  pub out : List ℕ
  pub valid_bytes : ℕ
  pub stop : Option Exception

abbrev pub stopped : Option Exception → Decoding
stopped e = record { out = []; valid_bytes = 0; stop = e }

-- A round consumes a byte at least, so the length of the string is fuel enough.
unfoldable pub decode_loop : ℕ → List ℕ → Decoding
decode_loop fuel [] = stopped none
decode_loop zero (b ∷ s) = stopped (some need_input)
decode_loop (suc fuel) (b ∷ s) = elim (decode_scalar b s) [
  | err e ↦ stopped (some e)
  | ok (c, rest) ↦
      let r = decode_loop fuel rest in
      record {
        out = c ∷ r.out;
        valid_bytes = length s + 1 - length rest + r.valid_bytes;
        stop = r.stop;
      }
]

unfoldable pub decoding : List ℕ → Decoding
unfolding decode_loop
decoding s = decode_loop (length s) s

abbrev finish : Decoding → Result (List ℕ)
finish d = elim d.stop [ none ↦ ok d.out | some e ↦ err e ]

unfoldable pub decode : List ℕ → Result (List ℕ)
unfolding decoding
decode s = finish (decoding s)
