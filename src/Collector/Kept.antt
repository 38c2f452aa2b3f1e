-- ===== src/Collector/Kept.antt =====
-- What the sweep keeps and what it erases (`Runtime::collect` of standalone/src/runtime.cpp).
use re_poplan.Prelude.{
  ℕ, suc, ◌≤◌, ◌≡◌, inl, inr, refl, ap, arith, Bool, true, false, Option, none, some, Bool-cases,
}
use re_poplan.Value.{Value, Result, ok, err}
use re_poplan.State.{Runtime}
use re_poplan.Collector.{
  Reader, Item, Marking, root_items, mark_all, mark_loop, unmarked, marking, only, sweep,
  sweep_marked, live, collect,
}
use re_poplan.Collector.Reach.{Reaches, Dangling, Outcome}
use re_poplan.Collector.Marks.{IsMarked, Seen, Sound, Steps, Outcome_bind, mark_all_lem}
use re_poplan.Collector.Loop.{count_free_le}
use re_poplan.Collector.Loop.Rounds.{Inv, Finished, mark_loop_lem}
use re_poplan.Collector.References.Listed.{object_in}
use re_poplan.Collector.References.Roots.{root_in, root_out}

module _ (r : Reader) (s : Runtime) where
  unmarked-Sound : Sound r s (unmarked s)
  unmarked-Sound = record {
    contents = λ id v c e. cc;
    pending_reached = λ v p. Reaches.on_stack p;
    marked_reached = λ h c. cc;
    cells_reached = λ id c. cc;
  }

  start-Inv : (m : Marking) → Steps r s (root_items r s) (unmarked s) m → Inv r s m
  start-Inv m t = record {
    sound = t.sound;
    stack_seen = λ v p. t.grown.seen (Item.value v) (inl p);
    roots_seen = t.done;
    objects = λ h o i c e p.
        (let none_marked : m.marked h ≡ false = ap (λ (g : ℕ → Bool). g h) t.grown.same in cc);
  }

  -- The marking ends with all that is reached, and fails only at a dangling reference.
  marking_lem :
      ((h : ℕ) → s.next ≤ h → s.objects h ≡ none) → Outcome r s (marking r s) (Finished r s)
  unfolding marking
  marking_lem bound =
      Outcome_bind r s (Finished r s) (mark_all s (root_items r s) (unmarked s))
        (mark_loop (suc s.next) s)
        (mark_all_lem r s (root_items r s) (unmarked s) (λ i p. Reaches.root (root_out r s i p))
          unmarked-Sound)
        (λ m t.
          mark_loop_lem r s (suc s.next) m bound
            (let l = count_free_le s.next m.marked in omega arith) (start-Inv m t))

  abbrev pub HasMark : Marking → Item → Type 0
  HasMark m (Item.value v) = IsMarked m.marked v
  HasMark m (Item.cell id) = m.marked_cells id ≡ true

  seen-HasMark : (m : Marking) (i : Item) → Finished r s m → Seen m i → HasMark m i
  seen-HasMark m (Item.value v) f (inl p) = f.empty v p
  seen-HasMark m (Item.value v) f (inr k) = k
  seen-HasMark m (Item.cell id) f k = k

  pub reached-HasMark : (m : Marking) (i : Item) → Finished r s m → Reaches r s i → HasMark m i
  reached-HasMark m i f (Reaches.on_stack p) = seen-HasMark m i f (f.inv.stack_seen _ p)
  reached-HasMark m i f (Reaches.root p) = seen-HasMark m i f (f.inv.roots_seen i (root_in r s p))
  reached-HasMark m i f (Reaches.member {h} {o} a e p) =
      seen-HasMark m i f (f.inv.objects h o i (reached-HasMark m _ f a) e (object_in s h o p))
  reached-HasMark m i f (Reaches.content a e) =
      seen-HasMark m i f (f.inv.sound.contents _ _ (reached-HasMark m _ f a) e)

  -- A run of the collector on a state without dangling references.
  pub record Run : Type 0 where
    pub field : Marking
    pub finished : Finished r s field
    pub result : collect r s ≡ (ok (record r { compiling = live r.compiling }), sweep field s)

  run_of :
      (x : Result Marking) → marking r s ≡ x → ¬ Dangling r s → Outcome r s x (Finished r s) → Run
  unfolding collect sweep_marked
  run_of (ok m) e n f = record { field = m; finished = f; result = rw e refl }
  run_of (err e) q n d = absurd (n d)

  pub run : ((h : ℕ) → s.next ≤ h → s.objects h ≡ none) → ¬ Dangling r s → Run
  run bound n = run_of (marking r s) refl n (marking_lem bound)

  pub only-true :
      {A : Type 0} (f : ℕ → Option A) (g : ℕ → Bool) (k : ℕ) → g k ≡ true → only g f k ≡ f k
  only-true f g k e = rw e refl

  pub only-some :
      {A : Type 0} (f : ℕ → Option A) (g : ℕ → Bool) (k : ℕ) (a : A)
      → only g f k ≡ some a
      → (g k ≡ true) × (f k ≡ some a)
  only-some f g k a e = ground arith

  -- If no object has a handle that is still to be given out, and nothing that the roots reach is
  -- missing, then a collection leaves each object that the stack, the reader, the words, the
  -- macros and the frames reach as it was, with the cell it is bound to and the contents of the
  -- cells that are reached, and changes nothing but objects, cells and bindings.
  pub collect-Reaches :
      ((h : ℕ) → s.next ≤ h → s.objects h ≡ none)
      → ¬ Dangling r s
      → let t = (collect r s).1 in
        ((h : ℕ)
          → Reaches r s (Item.value (Value.object h))
          → (t.objects h ≡ s.objects h) × (t.active h ≡ s.active h))
        × ((id : ℕ) → Reaches r s (Item.cell id) → t.cells id ≡ s.cells id)
        × (t ≡ record s { objects = t.objects; active = t.active; cells = t.cells })
  unfolding sweep
  collect-Reaches bound n =
      let c = run bound n in
      let m = c.field in
      rw c.result (
        (λ h a.
            let k = reached-HasMark m _ c.finished a in
            (only-true s.objects m.marked h k, only-true s.active m.marked h k)),
        (λ id a. only-true s.cells m.marked_cells id (reached-HasMark m _ c.finished a)),
        refl,
      )

  -- If no object has a handle that is still to be given out, and nothing that the roots reach is
  -- missing, then a collection erases every object and every cell that the roots do not reach, and
  -- the binding of such an object.
  pub collect_unreached :
      ((h : ℕ) → s.next ≤ h → s.objects h ≡ none)
      → ¬ Dangling r s
      → let t = (collect r s).1 in
        ((h : ℕ)
          → ¬ Reaches r s (Item.value (Value.object h))
          → (t.objects h ≡ none) × (t.active h ≡ none))
        × ((id : ℕ) → ¬ Reaches r s (Item.cell id) → t.cells id ≡ none)
  unfolding sweep
  collect_unreached bound n =
      let c = run bound n in
      let m = c.field in
      rw c.result (
        (λ h a. elim (Bool-cases (m.marked h)) [
          | inl y ↦ absurd (a (c.finished.inv.sound.marked_reached h y))
          | inr e ↦ (rw e refl, rw e refl)
        ]),
        (λ id a. elim (Bool-cases (m.marked_cells id)) [
          | inl y ↦ absurd (a (c.finished.inv.sound.cells_reached id y))
          | inr e ↦ rw e refl
        ]),
      )
