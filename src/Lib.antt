-- ===== src/Lib.antt =====
-- A model of the standalone POP-2 runtime of re-poplan (standalone/), with its correctness theorems.
--
-- The runtime is one class, pop::Runtime (standalone/include/pop/runtime.hpp). A program is a list of
-- operations that runs in a frame; the frames form a stack, values pass on a second stack, and
-- compound values are objects on a heap, named by handles. A word is interned by its canonical
-- spelling, and names an identifier; an identifier is bound to a cell, which an activation rebinds.
--
-- The files, in the order in which they build on each other:
--   Prelude: the names that all share, lists measured by native numbers, and signed integers.
--   Value: the tagged values of runtime.hpp, what functions throw, and results.
--   Utf8: decode and encode of standalone/src/value.cpp. decode reports how many bytes were valid
--     and what stopped it, as the C++ does through *valid_bytes. Fuel: the length of the string,
--     since a round consumes a byte.
--   Names: canonical of value.cpp, with the case folding and the look-alike letters.
--   Numbers: integer, real, equal, compare and arithmetic of value.cpp. An std::int64_t is an
--     integer that `fits`; the checked operations test the exact result, as the builtins do. A double
--     is its bit pattern, and the host's operations on patterns are the record Floats, a parameter.
--     Fuel of the power loop: the exponent and one more, since a round halves the exponent.
--   State: the data of runtime.hpp as records, and the monad Exec of the methods, a function from the
--     state to a result and a state. What was done before a throw stays done. The members of Runtime
--     that these methods do not read are left out; those of the reader are the record Lexer of Reader.
--   Store: make, object, word, string, pair, list, empty_list and items of
--     standalone/src/runtime.cpp. The loops that follow handles run on the number of handles given
--     out, plus one: no handle repeats before that, because the code stops at one that was seen.
--   Bindings: identifier, cell, bind, assign, cancel_word, function, primitive, pop and push. The
--     handle counter has 64 bits: make tests its exhaustion, and cell, which does not, wraps around.
--   Calls: schedule, has_updater, updater, force_list and call, and the return of an activation in
--     run. `invoke`, which runs a function that is not a user's, is an argument of call.
--   Primitives: branches of Runtime::invoke (standalone/src/primitives.cpp), one function each:
--     floor division and the bitwise operators in Primitives, numbers and truth values in
--     Primitives/Numeric, pairs, lists and references in Primitives/Structures.
--   Vm: the operations of Runtime::run, and in Vm/Step one round of its loop, with the handlers of
--     NeedList and NeedInput.
--   Collector: collect of runtime.cpp. Collector/References says case by case what the roots, objects,
--     programs and frames refer to, and Collector/Reach what the roots reach. The members of Runtime that
--     belong to the reader are the record Reader here. Fuel of the marking loop: the handles given out
--     and one more, since a round marks an object.
--   Tokenizer: tokenize of value.cpp. The characters that are left stand for the index, and the place goes
--     with them; a function for each branch of the loop reads one token (numbers in Tokenizer/Number, the
--     tests of characters in Tokenizer/Places). Fuel: the number of the characters, since a round consumes
--     one. An std::u32string is a list of scalars.
--   Reader: lex_available and read_physical_token of runtime.cpp, the primitive @FEED, and what feed does
--     with the bytes before it resumes, on the record Lexer of the members that they use. Fuel: the number
--     of the pending bytes, since a round that goes on consumes one.
--   Compiler: resolve of standalone/src/compiler.cpp, which turns each GOTO into a jump.
--   Bitwise: the bitwise operators on numbers, which Primitives and Besm share.
--   Besm: the BESM-6 machine (include/poplan/word48.hpp, src/machine.cpp, src/machine_cpu.cpp): words of
--     48 bits, the bytes in memory, the two stacks, and in its children the instruction format (Decode),
--     packing and shifts (Shift), the arithmetic unit (Alu) and the interpreter (Interpreter). A word is
--     a number below 2 ^ 48, an address one below 2 ^ 15; registers and operation codes are decimal
--     here. An operation returns its status and the machine; one that throws keeps what it had changed.
--     The loops run on their counts: 48 bits of a word, 40 bits of a quotient, six halvings.
--   Tests: test data and the theorems at concrete inputs.
-- In the maps and vectors of the C++ that the model holds as lists, the back of a vector that grows
-- and shrinks is the head of the list.
--
-- Not modelled: the compiler before resolve, the source list that the parser reads and the recovery
-- from faults, the printer's next_print (an argument of the round, as is the collector), the primitives
-- on records, strips, arrays and partial applications, the recovered image under src/ with the
-- routines that the machine translates, and the programs' own input and output. The elementary
-- functions and the extracodes 070 and 071 of the machine are parameters of its step, as is the
-- clock.
pub mod Prelude
pub mod Bitwise
pub mod Value
pub mod Utf8
pub mod Names
pub mod Numbers
pub mod State
pub mod Store
pub mod Bindings
pub mod Calls
pub mod Primitives
pub mod Vm
pub mod Tokenizer
pub mod Reader
pub mod Collector
pub mod Compiler
pub mod Besm
mod Tests
