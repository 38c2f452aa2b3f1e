-- ===== src/Collector/Loop.antt =====
-- The loop that marks: the search for the next object, and how many are left.
pub mod Rounds
use mathlib.Core.List.{Memᴰ}
use mathlib.Core.List.Memᴰ
use native.Mathlib.Decide.{dec_lt}
use re_poplan.Prelude.{
  ℕ, zero, suc, ◌+◌, ◌<◌, ◌≤◌, ◌≡◌, ◌⊎◌, ◌∙◌, inl, inr, refl, sym, ap, arith, Bool, true, false,
  List, [], ◌∷◌, Option, none, some, ◌==◌, if◌then◌else◌, Bool-cases, Option-cases,
}
use re_poplan.Value.{Value, Result, ok, err, ◌>>=◌}
use re_poplan.State.{Object, Runtime}
use re_poplan.Collector.{
  Reader, Item, Marking, insert, root_items, object_items, mark_all, next_fresh, mark_object, visit,
  mark_loop,
}
use re_poplan.Collector.Reach.{Reaches, Dangling, Outcome}
use re_poplan.Collector.Marks.{
  IsMarked, Seen, Sound, Steps, Grown, insert_cases, Outcome_map, Outcome_bind, mark_all_lem,
}

-- The handles below n that are not marked.
abbrev pub count_free : ℕ → (ℕ → Bool) → ℕ
count_free zero f = 0
count_free (suc n) f = (if f n then 0 else 1) + count_free n f

count_free-above : (n k : ℕ) (f : ℕ → Bool) → n ≤ k → count_free n (insert f k) ≡ count_free n f
count_free-above zero k f l = refl
count_free-above (suc n) k f l = ground (arith, count_free-above n k f (omega arith))

pub count_free-insert :
    (n k : ℕ) (f : ℕ → Bool)
    → k < n
    → f k ≡ false
    → suc (count_free n (insert f k)) ≡ count_free n f
count_free-insert zero k f l e = elim l [ ]
count_free-insert (suc n) k f l e = elim (dec_lt k n) [
  | yes b ↦ ground (arith, count_free-insert n k f b e)
  | no g ↦ (let q : k ≡ n = omega arith in ground (arith, count_free-above n k f (omega arith)))
]

pub count_free_le : (n : ℕ) (f : ℕ → Bool) → count_free n f ≤ n
count_free_le zero f = omega arith
count_free_le (suc n) f = ground (arith, count_free_le n f)

-- What the search for an unmarked object finds.
pub record Fresh (marked : ℕ → Bool) (pending : List Value) (h : ℕ) (rest : List Value)
    : Type 0 where
  pub free : marked h ≡ false
  pub here : Memᴰ (Value.object h) pending
  pub below : (v : Value) → Memᴰ v rest → Memᴰ v pending
  pub gone : (v : Value) → Memᴰ v pending → Memᴰ v rest ⊎ IsMarked (insert marked h) v

abbrev pub Found : (ℕ → Bool) → List Value → Option (ℕ × List Value) → Type 0
Found marked pending none = (v : Value) → Memᴰ v pending → IsMarked marked v
Found marked pending (some (h, rest)) = Fresh marked pending h rest

IsMarked-insert :
    (marked : ℕ → Bool) (h : ℕ) (v : Value) → IsMarked marked v → IsMarked (insert marked h) v
IsMarked-insert marked h (Value.object k) m = ground arith
IsMarked-insert marked h Value.undefined m = tt
IsMarked-insert marked h Value.terminator m = tt
IsMarked-insert marked h (Value.integer n) m = tt
IsMarked-insert marked h (Value.real n) m = tt

all_marked :
    (marked : ℕ → Bool) (v : Value) (vs : List Value)
    → IsMarked marked v
    → Found marked vs none
    → Found marked (v ∷ vs) none
all_marked marked v vs m f w (Memᴰ.head e) = rw e m
all_marked marked v vs m f w (Memᴰ.tail p) = f w p

skip :
    (marked : ℕ → Bool) (v : Value) (vs : List Value) (x : Option (ℕ × List Value))
    → IsMarked marked v
    → Found marked vs x
    → Found marked (v ∷ vs) x
skip marked v vs none m f = λ w p. all_marked marked v vs m f w p
skip marked v vs (some (h, rest)) m f = record {
  free = f.free;
  here = Memᴰ.tail f.here;
  below = λ w p. Memᴰ.tail (f.below w p);
  gone = gone;
}
  where
    gone : (w : Value) → Memᴰ w (v ∷ vs) → Memᴰ w rest ⊎ IsMarked (insert marked h) w
    gone w (Memᴰ.head e) = inr (rw e (IsMarked-insert marked h v m))
    gone w (Memᴰ.tail p) = f.gone w p

at_head :
    (marked : ℕ → Bool) (h : ℕ) (vs : List Value)
    → marked h ≡ false
    → Fresh marked (Value.object h ∷ vs) h vs
at_head marked h vs n = record {
  free = n;
  here = Memᴰ.head refl;
  below = λ w p. Memᴰ.tail p;
  gone = gone;
}
  where
    self : insert marked h h ≡ true
    self = ground arith

    gone : (w : Value) → Memᴰ w (Value.object h ∷ vs) → Memᴰ w vs ⊎ IsMarked (insert marked h) w
    gone w (Memᴰ.head e) = inr (rw e self)
    gone w (Memᴰ.tail p) = inl p

pub next_fresh-Found :
    (marked : ℕ → Bool) (vs : List Value) → Found marked vs (next_fresh marked vs)
unfolding next_fresh
next_fresh-Found marked [] = λ v p. absurd (Memᴰ.not-nil p)
next_fresh-Found marked (Value.object h ∷ vs) = elim (Bool-cases (marked h)) [
  | inl y ↦
      rw y (skip marked (Value.object h) vs (next_fresh marked vs) y (next_fresh-Found marked vs))
  | inr n ↦ rw n (at_head marked h vs n)
]
next_fresh-Found marked (Value.undefined ∷ vs) =
    skip marked Value.undefined vs _ tt (next_fresh-Found marked vs)
next_fresh-Found marked (Value.terminator ∷ vs) =
    skip marked Value.terminator vs _ tt (next_fresh-Found marked vs)
next_fresh-Found marked (Value.integer n ∷ vs) =
    skip marked (Value.integer n) vs _ tt (next_fresh-Found marked vs)
next_fresh-Found marked (Value.real n ∷ vs) =
    skip marked (Value.real n) vs _ tt (next_fresh-Found marked vs)
