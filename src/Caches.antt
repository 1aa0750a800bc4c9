-- ===== src/Caches.antt =====
-- What is done to the caches: the calls of src/lib/nx/arm/cache.s, and the writes between them.
use zeldar.Base.{ℕ}

-- A write of a range, and the calls `armDCacheFlush` and `armICacheInvalidate` for one.
pub data Effect : Type 0 where
  wrote : ℕ → ℕ → Effect
  dcache_flush : ℕ → ℕ → Effect
  icache_invalidate : ℕ → ℕ → Effect
