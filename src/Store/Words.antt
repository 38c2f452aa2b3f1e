-- ===== src/Store/Words.antt =====
-- Interning: `word` of standalone/src/runtime.cpp.
use re_poplan.Value.{Value}
