-- ===== src/Debug/Tests.antt =====
-- A message at concrete values.
