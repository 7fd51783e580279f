-- ===== src/Transaction/Region.antt =====
-- commitFreelist: where the freelist goes in the file, and that it fits there.
