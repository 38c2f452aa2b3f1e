-- ===== src/Collector/Loop/Rounds.antt =====
-- The invariant of the loop that marks, and its end.
use mathlib.Core.List.{Memᴰ}
use native.Mathlib.Decide.{dec_lt}
use mathlib.Core.Path.{subst}
use re_poplan.Prelude.{
  some_injective, ℕ, zero, suc, ◌<◌, ◌≤◌, ◌≡◌, ◌∙◌, inl, inr, refl, sym, ap, arith, Bool, true,
  List, none, some, Option-cases,
}
use re_poplan.Value.{Value, ok, ◌>>=◌}
use re_poplan.State.{Object, Runtime}
use re_poplan.Collector.{
  Reader, Item, Marking, insert, root_items, object_items, mark_all, next_fresh, mark_object, visit,
  mark_loop,
}
use re_poplan.Collector.Reach.{Reaches, Dangling, Outcome}
use re_poplan.Collector.Marks.{
  IsMarked, Seen, Sound, Steps, insert_cases, Outcome_map, Outcome_bind, mark_all_lem,
}
use re_poplan.Collector.Loop.{
  count_free, count_free-insert, Fresh, Found, IsMarked-insert, next_fresh-Found,
}
use re_poplan.Collector.References.Listed.{object_out}

module _ (r : Reader) (s : Runtime) where
  -- Between two rounds: the roots are seen, and what the marked objects refer to.
  pub record Inv (m : Marking) : Type 0 where
    pub sound : Sound r s m
    pub stack_seen : (v : Value) → Memᴰ v s.stack → Seen m (Item.value v)
    pub roots_seen : (i : Item) → Memᴰ i (root_items r s) → Seen m i
    pub objects :
        (h : ℕ) (o : Object) (i : Item)
        → m.marked h ≡ true
        → s.objects h ≡ some o
        → Memᴰ i (object_items s h o)
        → Seen m i

  abbrev taken : ℕ → List Value → Marking → Marking
  taken h rest m = record m { pending = rest; marked = insert m.marked h }

  module _ (m : Marking) (h : ℕ) (rest : List Value) (f : Fresh m.marked m.pending h rest)
      (k : Inv m) where
    taken_seen : (i : Item) → Seen m i → Seen (taken h rest m) i
    taken_seen (Item.value v) (inl p) = f.gone v p
    taken_seen (Item.value v) (inr q) = inr (IsMarked-insert m.marked h v q)
    taken_seen (Item.cell id) q = q

    reached : Reaches r s (Item.value (Value.object h))
    reached = k.sound.pending_reached _ f.here

    taken-Sound : Sound r s (taken h rest m)
    taken-Sound = record {
      contents = λ id v c e. taken_seen (Item.value v) (k.sound.contents id v c e);
      pending_reached = λ v p. k.sound.pending_reached v (f.below v p);
      marked_reached = λ j q. elim (insert_cases m.marked h j q) [
        | inl e ↦ rw e reached
        | inr old ↦ k.sound.marked_reached j old
      ];
      cells_reached = k.sound.cells_reached;
    }

    -- After the members of the object were marked.
    visited-Inv :
        (o : Object) (n : Marking)
        → s.objects h ≡ some o
        → Steps r s (object_items s h o) (taken h rest m) n
        → Inv n
    visited-Inv o n e t = record {
      sound = t.sound;
      stack_seen =
          λ v p. t.grown.seen (Item.value v) (taken_seen (Item.value v) (k.stack_seen v p));
      roots_seen = λ i p. t.grown.seen i (taken_seen i (k.roots_seen i p));
      objects = λ j o' i q e' p.
          elim (insert_cases m.marked h j (sym (ap (λ (g : ℕ → Bool). g j) t.grown.same) ∙ q)) [
            | inl w ↦
                (let same : o' ≡ o = some_injective (sym e' ∙ ap s.objects w ∙ e) in
                  t.done i (subst (Memᴰ i) (λ x. object_items s (w x) (same x)) p))
            | inr old ↦ t.grown.seen i (taken_seen i (k.objects j o' i old e' p))
          ];
    }

  -- A round leaves fewer handles unmarked.
  record Visited (m n : Marking) : Type 0 where
    inv : Inv n
    less : suc (count_free s.next n.marked) ≡ count_free s.next m.marked

  below_next :
      (h : ℕ) (o : Object)
      → ((j : ℕ) → s.next ≤ j → s.objects j ≡ none)
      → s.objects h ≡ some o
      → h < s.next
  below_next h o bound e = elim (dec_lt h s.next) [
    | yes l ↦ l
    | no g ↦ (let n = bound h (omega arith) in cc)
  ]

  visit_lem :
      (m : Marking) (h : ℕ) (rest : List Value)
      → ((j : ℕ) → s.next ≤ j → s.objects j ≡ none)
      → Fresh m.marked m.pending h rest
      → Inv m
      → Outcome r s (visit s (h, rest) m) (Visited m)
  unfolding visit mark_object
  visit_lem m h rest bound f k = elim (Option-cases (s.objects h)) [
    | inl e ↦ rw e (Dangling.no_object (reached m h rest f k) e)
    | inr (o, e) ↦ rw e (
        Outcome_map r s (mark_all s (object_items s h o) (taken h rest m))
          (λ n t. record {
            inv = visited-Inv m h rest f k o n e t;
            less =
                ap (λ (g : ℕ → Bool). suc (count_free s.next g)) t.grown.same
                ∙ count_free-insert s.next h m.marked (below_next h o bound e) f.free;
          })
          (mark_all_lem r s (object_items s h o) (taken h rest m)
            (λ i p. Reaches.member (reached m h rest f k) e (object_out s h o i p))
            (taken-Sound m h rest f k)))
  ]

  -- What the loop ends with: nothing is left to mark.
  pub record Finished (m : Marking) : Type 0 where
    pub inv : Inv m
    pub empty : (v : Value) → Memᴰ v m.pending → IsMarked m.marked v

  last_round :
      (fuel : ℕ) (m : Marking)
      → next_fresh m.marked m.pending ≡ none
      → mark_loop (suc fuel) s m ≡ ok m
  unfolding mark_loop
  last_round fuel m e = rw (e, mark_loop) refl

  more_rounds :
      (fuel : ℕ) (m : Marking) (p : ℕ × List Value)
      → next_fresh m.marked m.pending ≡ some p
      → mark_loop (suc fuel) s m ≡ (visit s p m >>= mark_loop fuel s)
  unfolding mark_loop
  more_rounds fuel m p e = rw (e, mark_loop) refl

  pub mark_loop_lem :
      (fuel : ℕ) (m : Marking)
      → ((j : ℕ) → s.next ≤ j → s.objects j ≡ none)
      → count_free s.next m.marked < fuel
      → Inv m
      → Outcome r s (mark_loop fuel s m) Finished
  mark_loop_lem zero m bound l k = elim l [ ]
  mark_loop_lem (suc fuel) m bound l k = elim (Option-cases (next_fresh m.marked m.pending)) [
    | inl e ↦ rw (last_round fuel m e) (record {
      inv = k;
      empty = subst (Found m.marked m.pending) e (next_fresh-Found m.marked m.pending);
    })
    | inr ((h, rest), e) ↦ rw (more_rounds fuel m (h, rest) e) (
        Outcome_bind r s Finished (visit s (h, rest) m) (mark_loop fuel s)
          (visit_lem m h rest bound
            (subst (Found m.marked m.pending) e (next_fresh-Found m.marked m.pending)) k)
          (λ n v. mark_loop_lem fuel n bound (let q = v.less in omega arith) v.inv))
  ]
