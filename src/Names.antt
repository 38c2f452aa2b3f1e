-- ===== src/Names.antt =====
-- The spelling that a word is interned under: `canonical` of standalone/src/value.cpp.
pub mod Laws
pub mod Letters
use re_poplan.Prelude.{
  ℕ, ◌-◌, Bool, ◌&&◌, List, [], ◌∷◌, leb, ◌==◌, if◌then◌else◌, map, take, suc, zero,
}
use re_poplan.Value.{Result, ◌>>=◌}
use re_poplan.Utf8.{encode_all, decode}

-- `latin[russian.find(c)]` where the letter is found, c otherwise: АВЕКМНОРСТУХ and ABEKMHOPCTYX.
unfoldable pub homoglyph : ℕ → ℕ
homoglyph c =
    if c == 0x410
    then b'A'
    else if c == 0x412
    then b'B'
    else if c == 0x415
    then b'E'
    else if c == 0x41a
    then b'K'
    else if c == 0x41c
    then b'M'
    else if c == 0x41d
    then b'H'
    else if c == 0x41e
    then b'O'
    else if c == 0x420
    then b'P'
    else if c == 0x421
    then b'C'
    else if c == 0x422
    then b'T'
    else if c == 0x423
    then b'Y'
    else if c == 0x425
    then b'X'
    else c

-- The three conditional assignments to c in the loop.
unfoldable pub upper : ℕ → ℕ
upper c =
    let c₁ = if leb b'a' c && leb c b'z' then c - 32 else c in
    let c₂ = if leb 0x430 c₁ && leb c₁ 0x44f then c₁ - 32 else c₁ in
    if c₂ == 0x451 then 0x401 else c₂

unfoldable pub fold : ℕ → ℕ
fold c = homoglyph (upper c)

-- `if (count++ == 6) break;` keeps six characters.
unfoldable pub folded : List ℕ → List ℕ
folded cs = map fold (take 6 cs)

unfoldable pub canonical : List ℕ → Result (List ℕ)
unfolding folded
canonical s = do cs ← decode s; encode_all (folded cs)
