-- ===== src/Sync/Local/Spaces.antt =====
-- es3/sync.cpp: a directory whose path has a space in it.
