-- ===== src/Mirrors/Fetch/Again.antt =====
-- What one fetch leaves in the cache is what the next one returns.
