-- ===== src/Prelude/Outcome.antt =====
-- kernel/include/xaios/status.h: what a fallible operation returns.
pub data Status : Type 0 where
  ok invalid no_memory not_found io busy : Status
