-- ===== src/Writers/Alone.antt =====
-- decoder.rs: the accesses of one callback that is not disturbed are those of `copy_frame`.
