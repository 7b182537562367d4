-- ===== src/Ref/Tests.antt =====
-- The theorems on references and flags at concrete values.
