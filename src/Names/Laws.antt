-- ===== src/Names/Laws.antt =====
-- Interned spellings: at most six characters, stable, and equal exactly where the folded characters are.
use mathlib.Core.Path.{ap₂}
use re_poplan.Prelude.{
  ℕ, zero, suc, ◌≤◌, ◌≡◌, refl, false, List, [], ◌∷◌, arith, length, length-map, length-take, take,
  map, ap, inl, inr, ◌↔◌, ◌⊎◌,
}
use re_poplan.Value.{ok, >>=-eq-ok}
use re_poplan.Utf8.{invalid_scalar, encode_all, decode}
use re_poplan.Utf8.RoundTrip.{decode-encode_all}
use re_poplan.Utf8.Decoded.{AreBytes}
use re_poplan.Utf8.Scalars.{AreScalars, decode-AreScalars, encode_all_total}
use re_poplan.Names.{homoglyph, upper, fold, folded, canonical}

homoglyph_cases : (c : ℕ) → (homoglyph c ≡ c) ⊎ ((0x40 ≤ homoglyph c) × (homoglyph c ≤ 0x5a))
unfolding homoglyph
homoglyph_cases c = ground arith

upper-upper : (c : ℕ) → upper (upper c) ≡ upper c
unfolding upper
upper-upper c = ground arith

upper_capital : (c : ℕ) → 0x40 ≤ c → c ≤ 0x5a → (upper c ≡ c) × (homoglyph c ≡ c)
unfolding upper homoglyph
upper_capital c l h = ground arith

homoglyph_idem : (c : ℕ) → homoglyph (homoglyph c) ≡ homoglyph c
unfolding homoglyph
homoglyph_idem c = ground arith

pub fold-fold : (c : ℕ) → fold (fold c) ≡ fold c
unfolding fold
fold-fold c = elim (homoglyph_cases (upper c)) [
  | inl e ↦ rw e (rw upper-upper e)
  | inr (l, h) ↦ let (a, b) = upper_capital (homoglyph (upper c)) l h in rw a b
]

folded-folded :
    (n : ℕ) (cs : List ℕ) → map fold (take n (map fold (take n cs))) ≡ map fold (take n cs)
folded-folded zero cs = refl
folded-folded (suc n) [] = refl
folded-folded (suc n) (c ∷ cs) = ap₂ ◌∷◌ (fold-fold c) (folded-folded n cs)

canonical-eq-ok :
    (s t : List ℕ)
    → canonical s ≡ ok t
    → (cs : List ℕ) × (decode s ≡ ok cs) × (encode_all (folded cs) ≡ ok t)
unfolding canonical folded
canonical-eq-ok s t h = >>=-eq-ok (decode s) _ h

-- An interned spelling is its own interned spelling.
pub canonical-canonical : (s t : List ℕ) → canonical s ≡ ok t → canonical t ≡ ok t
unfolding canonical folded
canonical-canonical s t h =
    let (cs, d, e) = canonical-eq-ok s t h in
    rw (decode-encode_all (folded cs) t e) (rw (folded-folded 6 cs) e)

-- An interned spelling is valid UTF-8 of at most six characters.
pub canonical_short :
    (s t : List ℕ) → canonical s ≡ ok t → (cs : List ℕ) × (decode t ≡ ok cs) × (length cs ≤ 6)
unfolding folded
canonical_short s t h =
    let (cs, d, e) = canonical-eq-ok s t h in
    (
      folded cs,
      decode-encode_all (folded cs) t e,
      omega (arith, length-map (take 6 cs) fold, length-take 6 cs),
    )

pub canonical-folded :
    (s t u v cs ds : List ℕ)
    → canonical s ≡ ok u
    → canonical t ≡ ok v
    → decode s ≡ ok cs
    → decode t ≡ ok ds
    → (u ≡ v) ↔ (folded cs ≡ folded ds)
canonical-folded s t u v cs ds hu hv hs ht =
    let (cs', d, e) = canonical-eq-ok s u hu in
    let (ds', d', e') = canonical-eq-ok t v hv in
    let back = decode-encode_all (folded cs') u e in
    let back' = decode-encode_all (folded ds') v e' in
    let same : cs' ≡ cs = cc in
    let same' : ds' ≡ ds = cc in
    (
      λ (p : u ≡ v). cc (ap folded same, ap folded same', ap decode p),
      λ (p : folded cs ≡ folded ds). cc (ap folded same, ap folded same', ap encode_all p),
    )

upper_valid : (c : ℕ) → invalid_scalar c ≡ false → invalid_scalar (upper c) ≡ false
unfolding upper
upper_valid c h = ground arith

fold_valid : (c : ℕ) → invalid_scalar c ≡ false → invalid_scalar (fold c) ≡ false
unfolding fold
fold_valid c h = elim (homoglyph_cases (upper c)) [
  | inl e ↦ rw e (upper_valid c h)
  | inr (l, m) ↦ ground arith
]

folded-AreScalars : (n : ℕ) (cs : List ℕ) → AreScalars cs → AreScalars (map fold (take n cs))
folded-AreScalars zero cs h = tt
folded-AreScalars (suc n) [] h = tt
folded-AreScalars (suc n) (c ∷ cs) (hc, hs) = (fold_valid c hc, folded-AreScalars n cs hs)

-- Every byte string that is valid UTF-8 has an interned spelling.
pub canonical_total :
    (s cs : List ℕ) → AreBytes s → decode s ≡ ok cs → (t : List ℕ) × (canonical s ≡ ok t)
unfolding canonical folded
canonical_total s cs bs h =
    let valid = decode-AreScalars s cs bs h in
    let (t, e) = encode_all_total (map fold (take 6 cs)) (folded-AreScalars 6 cs valid) in
    (t, rw h e)
