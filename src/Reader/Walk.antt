-- ===== src/Reader/Walk.antt =====
-- The loop of `lex_available` that counts bytes, and places counted from elsewhere.
use re_poplan.Prelude.{
  ℕ, ◌+◌, ◌≤◌, ◌≡◌, ◌∙◌, refl, ap, arith, true, false, List, [], ◌∷◌, ◌++◌, length, length-append,
}
use re_poplan.Value.{ok, >>=-eq-ok}
use re_poplan.Utf8.{encode, encode_all}
use re_poplan.State.{Location}
use re_poplan.Tokenizer.Places.{Place, moved}
use re_poplan.Tokenizer.Progress.{moved_all}
use re_poplan.Reader.{before, walk, advanced, shifted, place_of}

before-moved : (c : ℕ) (w : Place) → before w (moved c w) ≡ true
unfolding before moved
before-moved c w = ground arith

before_trans : (u v w : Place) → before u v ≡ true → before v w ≡ true → before u w ≡ true
unfolding before
before_trans u v w h k = ground arith

before_irrefl : (w : Place) → before w w ≡ false
unfolding before
before_irrefl w = ground arith

before-moved_all : (c : ℕ) (cs : List ℕ) (w : Place) → before w (moved_all (c ∷ cs) w) ≡ true
unfolding moved_all
before-moved_all c [] w = before-moved c w
before-moved_all c (d ∷ cs) w =
    before_trans w (moved c w) (moved_all (d ∷ cs) (moved c w)) (before-moved c w)
      (before-moved_all d cs (moved c w))

walk_stops : (cs : List ℕ) (w : Place) (n : ℕ) → walk w cs w n ≡ ok (w, n)
unfolding walk
walk_stops [] w n = refl
walk_stops (c ∷ cs) w n = rw (before_irrefl w) refl

walk-step :
    (end : Place) (c : ℕ) (cs u : List ℕ) (w : Place) (n : ℕ)
    → before w end ≡ true
    → encode c ≡ ok u
    → walk end (c ∷ cs) w n ≡ walk end cs (moved c w) (n + length u)
unfolding walk
walk-step end c cs u w n h e = rw (h, e) refl

pub ok_injective : {A : Type 0} {a b : A} → ok a ≡ ok b → a ≡ b
ok_injective h = cc h

-- The walk passes exactly the characters in front of the place behind them, and counts their bytes.
pub walk-append :
    (cs rest s : List ℕ) (w : Place) (n : ℕ)
    → encode_all cs ≡ ok s
    → walk (moved_all cs w) (cs ++ rest) w n ≡ ok (moved_all cs w, n + length s)
unfolding encode_all moved_all
walk-append [] rest s w n h =
    let size : n ≡ n + length s = omega (arith, ap length (ok_injective h)) in
    walk_stops rest w n ∙ ap (λ m. ok (w, m)) size
walk-append (c ∷ cs) rest s w n h =
    let (u, eu, h') = >>=-eq-ok (encode c) _ h in
    let (v, ev, e) = >>=-eq-ok (encode_all cs) _ h' in
    let size : n + length u + length v ≡ n + length s =
      omega (arith, length-append u v, ap length (ok_injective e)) in
    walk-step (moved_all (c ∷ cs) w) c (cs ++ rest) u w n (before-moved_all c cs w) eu
    ∙ walk-append cs rest v (moved c w) (n + length u) ev
    ∙ ap (λ m. ok (moved_all (c ∷ cs) w, m)) size

-- The places of a source from the line and the column of `l` on.
abbrev pub Counts : Place → Type 0
Counts w = (1 ≤ w.line) × (1 ≤ w.column)

pub shifted-moved :
    (l : Location) (c : ℕ) (w : Place)
    → Counts w
    → Counts (place_of l)
    → shifted l (moved c w) ≡ moved c (shifted l w)
unfolding shifted moved
shifted-moved l c w (a, b) (d, e) = ground arith

pub moved-Counts : (c : ℕ) (w : Place) → Counts w → Counts (moved c w)
unfolding moved
moved-Counts c w (a, b) = ground arith

pub shifted-moved_all :
    (l : Location) (cs : List ℕ) (w : Place)
    → Counts w
    → Counts (place_of l)
    → shifted l (moved_all cs w) ≡ moved_all cs (shifted l w)
unfolding moved_all
shifted-moved_all l [] w h k = refl
shifted-moved_all l (c ∷ cs) w h k =
    shifted-moved_all l cs (moved c w) (moved-Counts c w h) k
    ∙ ap (moved_all cs) (shifted-moved l c w h k)

pub moved_all-Counts : (cs : List ℕ) (w : Place) → Counts w → Counts (moved_all cs w)
unfolding moved_all
moved_all-Counts [] w h = h
moved_all-Counts (c ∷ cs) w h = moved_all-Counts cs (moved c w) (moved-Counts c w h)

pub advanced-shifted :
    (l : Location) (w : Place)
    → Counts w
    → Counts (place_of l)
    → place_of (advanced l w) ≡ shifted l w
unfolding advanced shifted
advanced-shifted l w h k = ground arith
