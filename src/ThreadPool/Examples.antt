-- ===== src/ThreadPool/Examples.antt =====
-- The theorems on the model of src/thread-pool.c at a concrete pool.
use khttp.Common.{ℕ, ◌≡◌, refl, false, some, List, [], ◌∷◌, length}
use khttp.ThreadPool.{Thread, ThreadPool, JoinResult, still_busy, Managed, manage}

abbrev worker_pool : ThreadPool
worker_pool = record {
  shutdown = false;
  threads = [];
  thread_count = 0;
  min_threads = 1;
  max_threads = 5;
  queue_factor = 5;
}

abbrev busy : Thread → JoinResult
busy t = still_busy

abbrev rounds : List (ℕ × (Thread → JoinResult))
rounds = (9, busy) ∷ (100, busy) ∷ []

abbrev managed : Managed
managed = record {
  pool = record worker_pool { threads = record { tid = 1; stop = false } ∷ []; thread_count = 1 };
  id = 2;
  last_queue_count = 0;
}

-- The second round finds a hundred items and starts a thread.
manage_grows : (m : Managed) × (manage rounds managed ≡ some m) × (length m.pool.threads ≡ 3)
unfolding manage
manage_grows = (_, refl, refl)
