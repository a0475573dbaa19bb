-- ===== src/Text/Tests.antt =====
-- A number that kernel/string.c writes.
