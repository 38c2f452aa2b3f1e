-- ===== src/Collector/Marks.antt =====
-- The effect of marking a list of items.
use mathlib.Core.List.{Memᴰ}
use mathlib.Core.List.Memᴰ
use re_poplan.Prelude.{
  some_injective, ℕ, ◌≡◌, ◌⊎◌, inl, inr, refl, sym, ap, ◌∙◌, arith, Bool, true, List, [], ◌∷◌, some,
  Bool-cases, Option-cases,
}
use re_poplan.Value.{Value, Result, ok, err, ◌>>=◌}
use re_poplan.State.{Runtime}
use re_poplan.Collector.{Reader, Item, Marking, insert, push_content, mark, mark_all}
use re_poplan.Collector.Reach.{Reaches, Dangling, Outcome}

abbrev pub IsMarked : (ℕ → Bool) → Value → Type 0
IsMarked marked (Value.object h) = marked h ≡ true
IsMarked marked _ = Unit

-- A value that is pending or whose object is marked; a cell that is marked.
abbrev pub Seen : Marking → Item → Type 0
Seen m (Item.value v) = Memᴰ v m.pending ⊎ IsMarked m.marked v
Seen m (Item.cell id) = m.marked_cells id ≡ true

pub insert_cases : (f : ℕ → Bool) (k j : ℕ) → insert f k j ≡ true → (j ≡ k) ⊎ (f j ≡ true)
insert_cases f k j h = ground arith

-- From one marking to a later one with the same marked objects.
pub record Grown (m n : Marking) : Type 0 where
  pub same : n.marked ≡ m.marked
  pub seen : (i : Item) → Seen m i → Seen n i

pub Grown-refl : (m : Marking) → Grown m m
Grown-refl m = record { same = refl; seen = λ i x. x }

pub Grown-trans : {a b c : Marking} → Grown a b → Grown b c → Grown a c
Grown-trans g h = record { same = h.same ∙ g.same; seen = λ i x. h.seen i (g.seen i x) }

module _ (r : Reader) (s : Runtime) where
  pub record Sound (m : Marking) : Type 0 where
    pub contents :
        (id : ℕ) (v : Value)
        → m.marked_cells id ≡ true
        → s.cells id ≡ some v
        → Seen m (Item.value v)
    pub pending_reached : (v : Value) → Memᴰ v m.pending → Reaches r s (Item.value v)
    pub marked_reached : (h : ℕ) → m.marked h ≡ true → Reaches r s (Item.value (Value.object h))
    pub cells_reached : (id : ℕ) → m.marked_cells id ≡ true → Reaches r s (Item.cell id)

  -- After an item was marked.
  pub record Step (i : Item) (m n : Marking) : Type 0 where
    pub sound : Sound n
    pub grown : Grown m n
    pub done : Seen n i

  pushed_seen :
      (v : Value) (m : Marking) (i : Item)
      → Seen m i
      → Seen (record m { pending = v ∷ m.pending }) i
  pushed_seen v m (Item.value w) (inl p) = inl (Memᴰ.tail p)
  pushed_seen v m (Item.value w) (inr k) = inr k
  pushed_seen v m (Item.cell id) k = k

  pushed_reached :
      (v : Value) (m : Marking)
      → Reaches r s (Item.value v)
      → Sound m
      → (w : Value) → Memᴰ w (v ∷ m.pending)
      → Reaches r s (Item.value w)
  pushed_reached v m a k w (Memᴰ.head e) = rw e a
  pushed_reached v m a k w (Memᴰ.tail p) = k.pending_reached w p

  push_value :
      (v : Value) (m : Marking)
      → Reaches r s (Item.value v)
      → Sound m
      → Step (Item.value v) m (record m { pending = v ∷ m.pending })
  push_value v m a k = record {
    sound = record {
      contents = λ id w c e. pushed_seen v m (Item.value w) (k.contents id w c e);
      pending_reached = pushed_reached v m a k;
      marked_reached = k.marked_reached;
      cells_reached = k.cells_reached;
    };
    grown = record { same = refl; seen = pushed_seen v m };
    done = inl (Memᴰ.head refl);
  }

  abbrev with_content : Value → ℕ → Marking → Marking
  with_content v id m = record m {
    pending = v ∷ m.pending;
    marked_cells = insert m.marked_cells id;
  }

  content_seen :
      (v : Value) (id : ℕ) (m : Marking) (i : Item) → Seen m i → Seen (with_content v id m) i
  content_seen v id m (Item.value w) (inl p) = inl (Memᴰ.tail p)
  content_seen v id m (Item.value w) (inr k) = inr k
  content_seen v id m (Item.cell j) k = ground arith

  content_of :
      (v w : Value) (id j : ℕ) (m : Marking)
      → s.cells id ≡ some v
      → Sound m
      → insert m.marked_cells id j ≡ true
      → s.cells j ≡ some w
      → Seen (with_content v id m) (Item.value w)
  content_of v w id j m e k c f = elim (insert_cases m.marked_cells id j c) [
    | inl q ↦ inl (Memᴰ.head (some_injective (sym f ∙ ap s.cells q ∙ e)))
    | inr old ↦ content_seen v id m (Item.value w) (k.contents j w old f)
  ]

  push_cell :
      (v : Value) (id : ℕ) (m : Marking)
      → Reaches r s (Item.cell id)
      → s.cells id ≡ some v
      → Sound m
      → Step (Item.cell id) m (with_content v id m)
  push_cell v id m a e k = record {
    sound = record {
      contents = λ j w c f. content_of v w id j m e k c f;
      pending_reached = pushed_reached v m (Reaches.content a e) k;
      marked_reached = k.marked_reached;
      cells_reached = λ j c. elim (insert_cases m.marked_cells id j c) [
        | inl q ↦ rw q a
        | inr old ↦ k.cells_reached j old
      ];
    };
    grown = record { same = refl; seen = content_seen v id m };
    done = ground arith;
  }

  pub mark_lem :
      (i : Item) (m : Marking) → Reaches r s i → Sound m → Outcome r s (mark s i m) (Step i m)
  unfolding mark push_content
  mark_lem (Item.value v) m a k = push_value v m a k
  mark_lem (Item.cell id) m a k = elim (Bool-cases (m.marked_cells id)) [
    | inl y ↦ rw y (record { sound = k; grown = Grown-refl m; done = y })
    | inr n ↦ rw n (elim (Option-cases (s.cells id)) [
      | inl e ↦ rw e (Dangling.no_cell a e)
      | inr (v, e) ↦ rw e (push_cell v id m a e k)
    ])
  ]

  -- After a list of items was marked.
  pub record Steps (items : List Item) (m n : Marking) : Type 0 where
    pub sound : Sound n
    pub grown : Grown m n
    pub done : (i : Item) → Memᴰ i items → Seen n i

  Steps-cons :
      (i : Item) (items : List Item) (m n p : Marking)
      → Step i m n
      → Steps items n p
      → Steps (i ∷ items) m p
  Steps-cons i items m n p a b = record {
    sound = b.sound;
    grown = Grown-trans a.grown b.grown;
    done = seen;
  }
    where
      seen : (j : Item) → Memᴰ j (i ∷ items) → Seen p j
      seen j (Memᴰ.head e) = rw e (b.grown.seen i a.done)
      seen j (Memᴰ.tail q) = b.done j q

  -- The rules of an outcome.
  pub Outcome_map :
      {P Q : Marking → Type 0} (x : Result Marking)
      → ((m : Marking) → P m → Q m)
      → Outcome r s x P
      → Outcome r s x Q
  Outcome_map (ok m) f h = f m h
  Outcome_map (err e) f h = h

  pub Outcome_bind :
      {P : Marking → Type 0} (Q : Marking → Type 0) (x : Result Marking)
      (f : Marking → Result Marking)
      → Outcome r s x P
      → ((m : Marking) → P m → Outcome r s (f m) Q)
      → Outcome r s (x >>= f) Q
  Outcome_bind Q (ok m) f h k = k m h
  Outcome_bind Q (err e) f h k = h

  pub mark_all_lem :
      (items : List Item) (m : Marking)
      → ((i : Item) → Memᴰ i items → Reaches r s i)
      → Sound m
      → Outcome r s (mark_all s items m) (Steps items m)
  unfolding mark_all
  mark_all_lem [] m a k = record {
    sound = k;
    grown = Grown-refl m;
    done = λ i p. absurd (Memᴰ.not-nil p);
  }
  mark_all_lem (i ∷ items) m a k =
      Outcome_bind _ (mark s i m) (mark_all s items) (mark_lem i m (a i (Memᴰ.head refl)) k)
        (λ n st.
          Outcome_map (mark_all s items n) (λ p. Steps-cons i items m n p st)
            (mark_all_lem items n (λ j q. a j (Memᴰ.tail q)) st.sound))
