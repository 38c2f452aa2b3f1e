-- ===== src/Primitives/Structures/Append.antt =====
-- The list primitives `<>`, `REV` and `COPYLI` on lists that are not lazy.
use re_poplan.Prelude.{ℕ, suc, ◌+◌, ◌<◌, ◌≤◌, ◌≡◌, refl, List, [], ◌∷◌, ◌++◌, arith, length}
use re_poplan.Value.{Value, ok}
use re_poplan.State.{Runtime}
use re_poplan.Store.{items}
use re_poplan.Store.Lists.{Chain, IsHeap, HasNil-objects, Chain-kept, items_loop-Chain}
use re_poplan.Primitives.Structures.{prepend}

-- v is a list of xs that is not lazy.
abbrev pub IsList : Runtime → Value → List Value → Type 0
IsList s v xs = Chain s s.next v xs

Chain-length : (s : Runtime) (n : ℕ) (v : Value) (xs : List Value) → Chain s n v xs → length xs ≤ n
Chain-length s n v [] c = omega arith
Chain-length s n v (x ∷ xs) (h, t, l, e, c, r) = omega (arith, Chain-length s h t xs r)

pub items-IsList :
    (s : Runtime) (v : Value) (xs : List Value) → IsHeap s → IsList s v xs → items v s ≡ (ok xs, s)
unfolding items
items-IsList s v xs w c =
    items_loop-Chain (suc s.next) [] s s.next v xs w.has_nil c tt
      (omega (arith, Chain-length s s.next v xs c))

-- What `prepend(vs, b)` does, for a list b of ws.
record Prepended (vs ws : List Value) (b : Value) (s : Runtime) : Type 0 where
  result : Value
  state : Runtime
  run : prepend vs b s ≡ (ok result, state)
  is_list : IsList state result (vs ++ ws)
  heap : IsHeap state
  used : state.next ≡ s.next + length vs
  kept : (h : ℕ) → h < s.next → state.objects h ≡ s.objects h
  rest : state ≡ record s { objects = state.objects; next = state.next }

-- The stack is no part of the heap.
pub IsHeap-stack : (s : Runtime) (vs : List Value) → IsHeap s → IsHeap (record s { stack = vs })
IsHeap-stack s vs w = record {
  has_nil = HasNil-objects s (record s { stack = vs }) refl w.has_nil;
  fresh = w.fresh;
}

pub IsList-stack :
    (s : Runtime) (vs : List Value) (v : Value) (xs : List Value)
    → IsList s v xs
    → IsList (record s { stack = vs }) v xs
IsList-stack s vs v xs c = Chain-kept s (record s { stack = vs }) s.next v xs (λ h l. refl) c
