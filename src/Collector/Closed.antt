-- ===== src/Collector/Closed.antt =====
-- References after a collection.
use mathlib.Core.List.{Memᴰ}
use mathlib.Core.Path.{subst}
use re_poplan.Prelude.{
  ℕ, ◌≤◌, ◌≡◌, ◌∙◌, refl, sym, ap, true, List, [], ◌∷◌, ◌++◌, Option, none, some,
}
use re_poplan.State.{Object, Runtime, Program}
use re_poplan.Collector.{
  Reader, Item, Marking, root_items, object_items, sweep, live, collect, each, shared_items,
}
use re_poplan.Collector.References.Listed.{object_in, object_out}
use re_poplan.Collector.References.Roots.{root_in, root_out}
use re_poplan.Collector.Reach.{Reaches, Dangling}
use re_poplan.Collector.Loop.Rounds.{Finished}
use re_poplan.Collector.Kept.{only-true, only-some, run, reached-HasMark}

live_items : (ps : List (Option Program)) → each shared_items (live ps) ≡ each shared_items ps
unfolding live
live_items [] = refl
live_items (none ∷ ps) = live_items ps
live_items (some p ∷ ps) = ap (λ x. shared_items (some p) ++ x) (live_items ps)

module _ (r : Reader) (s : Runtime) (m : Marking) (f : Finished r s m) where
  abbrev swept : Reader
  swept = record r { compiling = live r.compiling }

  swept_roots : root_items swept (sweep m s) ≡ root_items r s
  unfolding root_items sweep
  swept_roots = rw (live_items r.compiling) refl

  -- The members of an object that is kept.
  swept_members :
      (h : ℕ) (o : Object) → m.marked h ≡ true → object_items (sweep m s) h o ≡ object_items s h o
  unfolding object_items sweep
  swept_members h o k = rw (only-true r s s.active m.marked h k) refl

  -- What is reached after a collection was reached before it.
  swept-Reaches : (i : Item) → Reaches swept (sweep m s) i → Reaches r s i
  unfolding sweep
  swept-Reaches i (Reaches.on_stack p) = Reaches.on_stack p
  swept-Reaches i (Reaches.root p) =
      Reaches.root (root_out r s i (subst (Memᴰ i) swept_roots (root_in swept (sweep m s) p)))
  swept-Reaches i (Reaches.member {h} {o} a e p) =
      let (k, e') = only-some r s s.objects m.marked h o e in
      Reaches.member (swept-Reaches _ a) e'
        (object_out s h o i (subst (Memᴰ i) (swept_members h o k) (object_in (sweep m s) h o p)))
  swept-Reaches i (Reaches.content {id} {v} a e) =
      Reaches.content (swept-Reaches _ a) (only-some r s s.cells m.marked_cells id v e).1

  swept-Dangling : Dangling swept (sweep m s) → Dangling r s
  unfolding sweep
  swept-Dangling (Dangling.no_object {h} a e) =
      let b = swept-Reaches _ a in
      Dangling.no_object b
        (sym (only-true r s s.objects m.marked h (reached-HasMark r s m _ f b)) ∙ e)
  swept-Dangling (Dangling.no_cell {id} a e) =
      let b = swept-Reaches _ a in
      Dangling.no_cell b
        (sym (only-true r s s.cells m.marked_cells id (reached-HasMark r s m _ f b)) ∙ e)

-- If no object has a handle that is still to be given out, and nothing that the roots reach is
-- missing, then after a collection nothing that the roots reach is missing either.
pub collect-Dangling :
    (r : Reader) (s : Runtime)
    → ((h : ℕ) → s.next ≤ h → s.objects h ≡ none)
    → ¬ Dangling r s
    → ¬ Dangling (record r { compiling = live r.compiling }) (collect r s).1
collect-Dangling r s bound n d =
    let c = run r s bound n in
    n (swept-Dangling r s c.field c.finished (subst (Dangling _) (ap (λ x. x.1) c.result) d))
