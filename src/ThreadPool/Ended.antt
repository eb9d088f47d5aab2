-- ===== src/ThreadPool/Ended.antt =====
-- A pool of src/thread-pool.c from its start to its end.
use khttp.Common.{ℕ, ◌+◌, ◌<◌, ◌≡◌, [], length}
use khttp.Queue.{u64_mod}
use khttp.ThreadPool.{ThreadPool}
use khttp.ThreadPool.Joined.{IsCounted}

-- The threads that are started first are counted.
record Grown (n : ℕ) (pool pool' : ThreadPool) : Type 0 where
  counted : IsCounted pool'
  more : length pool'.threads ≡ length pool.threads + n
  same_max : pool'.max_threads ≡ pool.max_threads
  same_min : pool'.min_threads ≡ pool.min_threads

-- A pool that has not been started, with limits that are 64-bit numbers.
pub record Fresh (pool : ThreadPool) : Type 0 where
  pub no_threads : pool.threads ≡ []
  pub none_counted : pool.thread_count ≡ 0
  pub min_fits : pool.min_threads < u64_mod
  pub max_fits : pool.max_threads < u64_mod

abbrev emptied : ThreadPool → ThreadPool
emptied pool = record pool { threads = []; thread_count = 0 }
