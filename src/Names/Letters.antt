-- ===== src/Names/Letters.antt =====
-- The letters that names do not tell apart: in case, and in looks.
use mathlib.Core.Path.{ap₂}
use re_poplan.Prelude.{
  ℕ, zero, suc, ◌-◌, ◌≤◌, ◌≡◌, ◌∙◌, refl, sym, ap, true, false, ◌&&◌, Bool, List, [], ◌∷◌, arith,
  take, map, inl, inr, ◌↔◌, ◌⊎◌, leb, ◌==◌, if◌then◌else◌, Bool-cases, get_elem?, some,
  some_injective,
}
use re_poplan.Value.{ok}
use re_poplan.Utf8.{decode}
use re_poplan.Names.{homoglyph, upper, fold, folded, canonical}
use re_poplan.Names.Laws.{canonical-folded}

-- The Russian capitals that look like Latin ones: А, В, Е, К, М, Н, О, Р, С, Т, У, Х.
abbrev pub look_alikes : List (ℕ × ℕ)
look_alikes =
    (0x410, b'A')
    ∷ (0x412, b'B')
    ∷ (0x415, b'E')
    ∷ (0x41a, b'K')
    ∷ (0x41c, b'M')
    ∷ (0x41d, b'H')
    ∷ (0x41e, b'O')
    ∷ (0x420, b'P')
    ∷ (0x421, b'C')
    ∷ (0x422, b'T')
    ∷ (0x423, b'Y')
    ∷ (0x425, b'X')
    ∷ []

abbrev pub OneOf : ℕ → ℕ → List (ℕ × ℕ) → Type 0
OneOf c d [] = ⊥
OneOf c d ((x, y) ∷ table) = ((c ≡ x) × (d ≡ y)) ⊎ OneOf c d table

-- The least equivalence that relates a small letter to its capital, and the letters of the table.
pub data SameLetter : ℕ → ℕ → Type 0 where
  latin_case : (c : ℕ) → b'a' ≤ c → c ≤ b'z' → SameLetter c (c - 32)
  russian_case : (c : ℕ) → 0x430 ≤ c → c ≤ 0x44f → SameLetter c (c - 32)
  yo_case : SameLetter 0x451 0x401
  looks : (c d : ℕ) → OneOf c d look_alikes → SameLetter c d
  same : (c : ℕ) → SameLetter c c
  back : (c d : ℕ) → SameLetter c d → SameLetter d c
  through : (c d e : ℕ) → SameLetter c d → SameLetter d e → SameLetter c e

abbrev pub SameLetters : List ℕ → List ℕ → Type 0
SameLetters [] [] = Unit
SameLetters (c ∷ cs) (d ∷ ds) = SameLetter c d × SameLetters cs ds
SameLetters _ _ = ⊥

if-SameLetter :
    (b : Bool) (c x y : ℕ)
    → (b ≡ true → SameLetter c x)
    → SameLetter c y
    → SameLetter c (if b then x else y)
if-SameLetter true c x y h k = h refl
if-SameLetter false c x y h k = k

cased :
    (b : Bool) (c d : ℕ)
    → (b ≡ true → SameLetter d (d - 32))
    → SameLetter c d
    → SameLetter c (if b then d - 32 else d)
cased true c d h k = through c d (d - 32) k (h refl)
cased false c d h k = k

latin : (c : ℕ) → (leb b'a' c && leb c b'z') ≡ true → SameLetter c (c - 32)
latin c h = latin_case c (ground arith) (ground arith)

russian : (c : ℕ) → (leb 0x430 c && leb c 0x44f) ≡ true → SameLetter c (c - 32)
russian c h = russian_case c (ground arith) (ground arith)

yo : (c d : ℕ) → SameLetter c d → SameLetter c (if d == 0x451 then 0x401 else d)
yo c d h = elim (Bool-cases (d == 0x451)) [
  | inl y ↦ let e : d ≡ 0x451 = ground arith in rw y (through c d 0x401 h (rw e yo_case))
  | inr n ↦ rw n h
]

upper-SameLetter : (c : ℕ) → SameLetter c (upper c)
unfolding upper
upper-SameLetter c = yo c _ (cased _ c _ (russian _) (cased _ c c (latin c) (same c)))

glyph :
    (c k l rest : ℕ)
    → SameLetter k l
    → SameLetter c rest
    → SameLetter c (if c == k then l else rest)
glyph c k l rest h r =
    if-SameLetter (c == k) c l rest (λ e. let m : c ≡ k = ground arith in rw m h) r

listed : (table : List (ℕ × ℕ)) (i c d : ℕ) → get_elem? table i ≡ some (c, d) → OneOf c d table
listed [] i c d h = absurd (cc h)
listed ((x, y) ∷ table) zero c d h =
    let e = some_injective h in inl (sym (ap (λ p. p.0) e), sym (ap (λ p. p.1) e))
listed ((x, y) ∷ table) (suc i) c d h = inr (listed table i c d h)

entry : (i : ℕ) {c d : ℕ} → get_elem? look_alikes i ≡ some (c, d) → SameLetter c d
entry i {c} {d} h = looks c d (listed look_alikes i c d h)

homoglyph-SameLetter : (c : ℕ) → SameLetter c (homoglyph c)
unfolding homoglyph
homoglyph-SameLetter c = glyph c _ _ _ (entry 0 refl) (
    glyph c _ _ _ (entry 1 refl) (
      glyph c _ _ _ (entry 2 refl) (
        glyph c _ _ _ (entry 3 refl) (
          glyph c _ _ _ (entry 4 refl) (
            glyph c _ _ _ (entry 5 refl) (
              glyph c _ _ _ (entry 6 refl) (
                glyph c _ _ _ (entry 7 refl) (
                  glyph c _ _ _ (entry 8 refl) (
                    glyph c _ _ _ (entry 9 refl) (
                      glyph c _ _ _ (entry 10 refl)
                        (glyph c _ _ _ (entry 11 refl) (same c))))))))))))

fold-SameLetter : (c : ℕ) → SameLetter c (fold c)
unfolding fold
fold-SameLetter c =
    through c (upper c) (fold c) (upper-SameLetter c) (homoglyph-SameLetter (upper c))

-- The pairs of a table are folded alike.
abbrev Agree : List (ℕ × ℕ) → Type 0
Agree [] = Unit
Agree ((x, y) ∷ table) = (fold x ≡ fold y) × Agree table

Agree-OneOf : (table : List (ℕ × ℕ)) (c d : ℕ) → Agree table → OneOf c d table → fold c ≡ fold d
Agree-OneOf [] c d h o = absurd o
Agree-OneOf ((x, y) ∷ table) c d (e, h) (inl (p, q)) = ap fold p ∙ e ∙ sym (ap fold q)
Agree-OneOf ((x, y) ∷ table) c d (e, h) (inr o) = Agree-OneOf table c d h o

look_alikes-Agree : Agree look_alikes
unfolding fold upper homoglyph
look_alikes-Agree = omega arith

upper_latin : (c : ℕ) → b'a' ≤ c → c ≤ b'z' → upper c ≡ upper (c - 32)
unfolding upper
upper_latin c l h = ground arith

upper_russian : (c : ℕ) → 0x430 ≤ c → c ≤ 0x44f → upper c ≡ upper (c - 32)
unfolding upper
upper_russian c l h = ground arith

fold_yo : fold 0x451 ≡ fold 0x401
unfolding fold upper homoglyph
fold_yo = refl

SameLetter-fold : {c d : ℕ} → SameLetter c d → fold c ≡ fold d
unfolding fold
SameLetter-fold (latin_case c l h) = ap homoglyph (upper_latin c l h)
SameLetter-fold (russian_case c l h) = ap homoglyph (upper_russian c l h)
SameLetter-fold yo_case = fold_yo
SameLetter-fold (looks c d o) = Agree-OneOf look_alikes c d look_alikes-Agree o
SameLetter-fold (same c) = refl
SameLetter-fold (back c d h) = sym (SameLetter-fold h)
SameLetter-fold (through c d e h k) = SameLetter-fold h ∙ SameLetter-fold k

fold-eq-SameLetter : (c d : ℕ) → fold c ≡ fold d → SameLetter c d
fold-eq-SameLetter c d h =
    through c (fold c) d (fold-SameLetter c) (rw h (back d (fold d) (fold-SameLetter d)))

SameLetters-iff : (cs ds : List ℕ) → (map fold cs ≡ map fold ds) ↔ SameLetters cs ds
SameLetters-iff [] [] = (λ h. tt, λ h. refl)
SameLetters-iff [] (d ∷ ds) = (λ h. absurd (cc h), λ h. absurd h)
SameLetters-iff (c ∷ cs) [] = (λ h. absurd (cc h), λ h. absurd h)
SameLetters-iff (c ∷ cs) (d ∷ ds) =
    let (to, from) = SameLetters-iff cs ds in
    (
      λ h. (fold-eq-SameLetter c d (cc h), to (cc h)),
      λ (s, ss). ap₂ ◌∷◌ (SameLetter-fold s) (from ss),
    )

-- Two names that have an interned spelling have the same one exactly if the first six characters
-- of each, as far as there are so many, are as many and in each place the same letter: equal up to
-- the least equivalence that relates the small Latin and Russian letters to their capitals, and
-- twelve Russian capitals to the Latin ones that look like them.
pub canonical_iff :
    (s t u v cs ds : List ℕ)
    → canonical s ≡ ok u
    → canonical t ≡ ok v
    → decode s ≡ ok cs
    → decode t ≡ ok ds
    → (u ≡ v) ↔ SameLetters (take 6 cs) (take 6 ds)
unfolding folded
canonical_iff s t u v cs ds hu hv hs ht =
    let (to, from) = canonical-folded s t u v cs ds hu hv hs ht in
    let (there, again) = SameLetters-iff (take 6 cs) (take 6 ds) in
    (λ e. there (to e), λ e. from (again e))
