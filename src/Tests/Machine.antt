-- ===== src/Tests/Machine.antt =====
-- The virtual machine on small states.
use re_poplan.Prelude.{◌≡◌, refl, [], ◌∷◌, arith}
use re_poplan.Prelude.Int.{pos}
use re_poplan.Value.{Value, ok}
use re_poplan.State.{Runtime, Frame, plain_frame}
use re_poplan.Store.{items}
use re_poplan.Store.Lists.{IsHeap, HasNil-objects}
use re_poplan.Vm.{begin_list, end_list, modify_top}
use re_poplan.Vm.Brackets.{end_list-begin_list}
use re_poplan.Tests.Heap.{small, small-IsHeap}
use re_poplan.Tests.Activation.{program}

-- [% 5, 6 %] above a 9, inside another bracket.
abbrev opening_frame : Frame
opening_frame = record (plain_frame program) { list_bases = 0 ∷ [] }

abbrev opening : Runtime
opening = record small { frames = opening_frame ∷ []; stack = Value.integer (pos 9) ∷ [] }

abbrev closing_frame : Frame
closing_frame = record (plain_frame program) { list_bases = 1 ∷ 0 ∷ []; pc = 3 }

abbrev closing : Runtime
closing = record small {
  frames = closing_frame ∷ [];
  stack = Value.integer (pos 6) ∷ Value.integer (pos 5) ∷ Value.integer (pos 9) ∷ [];
}

closing-IsHeap : IsHeap closing
closing-IsHeap = record {
  has_nil = HasNil-objects small closing refl small-IsHeap.has_nil;
  fresh = small-IsHeap.fresh;
}

end_list-begin_list_example :
    (v : Value) × (t : Runtime) × (end_list closing ≡ (ok tt, t))
    × (t.stack ≡ v ∷ Value.integer (pos 9) ∷ [])
    × (items v t ≡ (ok (Value.integer (pos 5) ∷ Value.integer (pos 6) ∷ []), t))
    × (t.frames ≡ record closing_frame { list_bases = 0 ∷ [] } ∷ [])
unfolding begin_list modify_top
end_list-begin_list_example =
    end_list-begin_list opening closing opening_frame closing_frame [] []
      (Value.integer (pos 5) ∷ Value.integer (pos 6) ∷ []) refl refl refl refl closing-IsHeap
      (omega arith)
