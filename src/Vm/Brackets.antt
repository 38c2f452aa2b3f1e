-- ===== src/Vm/Brackets.antt =====
-- List brackets: the operations `begin_list` and `end_list` (standalone/src/runtime.cpp).
use mathlib.Core.List.{reverse-reverse}
use re_poplan.Prelude.{
  ℕ, ◌+◌, ◌-◌, ◌^◌, ◌<◌, ◌≡◌, ◌∙◌, sym, ap, refl, arith, List, [], ◌∷◌, ◌++◌, reverse, take, drop,
  length, length-append, false, ltb,
}
use re_poplan.Value.{Value, ok}
use re_poplan.State.{Runtime, Frame}
use re_poplan.Store.{items, list}
use re_poplan.Store.Lists.{IsHeap, HasNil-objects, list-Built}
use re_poplan.Bindings.{push}
use re_poplan.Primitives.Structures.Append.{IsHeap-stack, IsList-stack, items-IsList}
use re_poplan.Vm.{begin_list, end_list, collect_list, above_mark, below_mark, top_frame, modify_top}

split_at : {A : Type 0} (xs ys : List A) → length (xs ++ ys) - length ys ≡ length xs
split_at xs ys = omega (arith, length-append xs ys)

take-length : {A : Type 0} (xs ys : List A) → take (length xs) (xs ++ ys) ≡ xs
take-length [] ys = refl
take-length (x ∷ xs) ys = ap (◌∷◌ x) (take-length xs ys)

drop-length : {A : Type 0} (xs ys : List A) → drop (length xs) (xs ++ ys) ≡ ys
drop-length [] ys = refl
drop-length (x ∷ xs) ys = drop-length xs ys

above : (vs stack : List Value) → above_mark (length stack) (reverse vs ++ stack) ≡ vs
unfolding above_mark
above vs stack =
    rw (split_at (reverse vs) stack, take-length (reverse vs) stack) (reverse-reverse vs)

below : (vs stack : List Value) → below_mark (length stack) (reverse vs ++ stack) ≡ stack
unfolding below_mark
below vs stack = rw (split_at (reverse vs) stack) (drop-length (reverse vs) stack)

mark_below : (xs stack : List Value) → ltb (length (xs ++ stack)) (length stack) ≡ false
mark_below xs stack = ground (arith, length-append xs stack)

collect_run :
    (u : Runtime) (vs stack : List Value) {v : Value} {t : Runtime}
    → u.stack ≡ reverse vs ++ stack
    → list vs (record u { stack = stack }) ≡ (ok v, t)
    → collect_list (length stack) u ≡ (ok tt, record t { stack = v ∷ t.stack })
unfolding collect_list push
collect_run u vs stack e h =
    rw (e, mark_below (reverse vs) stack, above vs stack, below vs stack, h) refl

end_run :
    (s : Runtime) (g : Frame) (gs : List Frame) (n : ℕ) (bases : List ℕ)
    → s.frames ≡ g ∷ gs
    → g.list_bases ≡ n ∷ bases
    → end_list s ≡ collect_list n (record s { frames = record g { list_bases = bases } ∷ gs })
unfolding end_list top_frame modify_top
end_run s g gs n bases e h = rw (e, h) refl

begin_run :
    (s : Runtime) (f : Frame) (fs : List Frame)
    → s.frames ≡ f ∷ fs
    → begin_list s
      ≡ (ok tt, record s { frames = record f { list_bases = length s.stack ∷ f.list_bases } ∷ fs })
unfolding begin_list modify_top
begin_run s f fs e = rw e refl

-- The list markers of the frame on top.
abbrev pub markers : Runtime → List ℕ
markers s = elim s.frames [ [] ↦ [] | f ∷ fs ↦ f.list_bases ]

-- Where the code between two list brackets left the values vs above the stack that the opening
-- bracket found, and the frame on top with the markers that the opening bracket left, on a
-- well-formed heap with room for the nodes, the closing bracket replaces the values by one that
-- items reads as vs, on that stack, and leaves the markers that there were before the opening
-- bracket.
pub end_list-begin_list :
    (s u : Runtime) (f g : Frame) (fs gs : List Frame) (vs : List Value)
    → s.frames ≡ f ∷ fs
    → u.frames ≡ g ∷ gs
    → markers (begin_list s).1 ≡ g.list_bases
    → u.stack ≡ reverse vs ++ s.stack
    → IsHeap u
    → u.next + length vs < 2 ^ 64
    → (v : Value) × (t : Runtime) × (end_list u ≡ (ok tt, t))
      × (t.stack ≡ v ∷ s.stack)
      × (items v t ≡ (ok vs, t))
      × (t.frames ≡ record g { list_bases = f.list_bases } ∷ gs)
end_list-begin_list s u f g fs gs vs e h b k w l =
    let bases : g.list_bases ≡ length s.stack ∷ f.list_bases =
      sym b ∙ ap (λ p. markers p.1) (begin_run s f fs e) in
    let inner = record u { frames = record g { list_bases = f.list_bases } ∷ gs } in
    let below_it = record inner { stack = s.stack } in
    let m =
      list-Built vs below_it
        (record { has_nil = HasNil-objects u below_it refl w.has_nil; fresh = w.fresh }) l in
    let t = record m.state { stack = m.result ∷ m.state.stack } in
    (
      m.result,
      t,
      end_run u g gs _ _ h bases ∙ collect_run inner vs s.stack k m.run,
      ap (λ (q : Runtime). m.result ∷ q.stack) m.rest,
      items-IsList t m.result vs (IsHeap-stack m.state _ m.heap)
          (IsList-stack m.state _ m.result vs m.chain),
      ap (λ (q : Runtime). q.frames) m.rest,
    )
