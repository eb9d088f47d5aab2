-- ===== src/ThreadPool.antt =====
-- The thread pools of src/thread-pool.c and src/thread-pool.h. A thread is known by its `tid`. A
-- 64-bit integer is its bit pattern, below 2^64. `none` is a fault or an exit of the program by
-- `fatal`.
pub mod Counted
pub mod Joined
pub mod Ended
pub mod Examples
use khttp.Common.{
  ℕ, zero, suc, ◌+◌, ◌-◌, ◌*◌, ◌%◌, ◌^◌, Bool, true, false, ◌&&◌, Option, none, some, List, [], ◌∷◌,
  map, ltb, ◌==◌, if◌then◌else◌, ◌>>=◌,
}
use khttp.Queue.{u64_mod}

pub record Thread : Type 0 where
  pub tid : ℕ
  pub stop : Bool

pub record ThreadPool : Type 0 where
  pub shutdown : Bool
  pub threads : List Thread
  pub thread_count : ℕ
  pub min_threads : ℕ
  pub max_threads : ℕ
  pub queue_factor : ℕ

-- The counter `id` is passed through.
unfoldable pub thread_newid : ℕ → ℕ × ℕ
thread_newid id = (id, (id + 1) % u64_mod)

unfoldable pub thread_new : ℕ → Thread × ℕ
unfolding thread_newid
thread_new id = let (tid, id') = thread_newid id in (record { tid = tid; stop = false }, id')

unfoldable pub thread_pool_new : ThreadPool
thread_pool_new = record {
  shutdown = false;
  threads = [];
  thread_count = 0;
  min_threads = 1;
  max_threads = 1;
  queue_factor = 5;
}

unfoldable pub thread_pool_add_thread : ThreadPool → Thread → ThreadPool
thread_pool_add_thread pool th = record pool {
  threads = th ∷ pool.threads;
  thread_count = (pool.thread_count + 1) % u64_mod;
}

-- LL_DELETE of the thread with that id, which must be in the list.
unfoldable pub delete_thread : ℕ → List Thread → Option (List Thread)
delete_thread tid [] = none
delete_thread tid (t ∷ ts) =
    let rest = delete_thread tid ts in
    if t.tid == tid then some ts else (rest >>= (λ r. some (t ∷ r)))

unfoldable pub thread_pool_remove_thread : ThreadPool → Thread → Option ThreadPool
unfolding delete_thread
thread_pool_remove_thread pool th = do
  threads ← delete_thread th.tid pool.threads
  some (record pool {
    threads = threads;
    thread_count = (pool.thread_count + u64_mod - 1) % u64_mod;
  })

-- The loop that starts `n` threads.
unfoldable pub start_threads : ℕ → ThreadPool → ℕ → ThreadPool × ℕ
unfolding thread_new thread_pool_add_thread
start_threads zero pool id = (pool, id)
start_threads (suc n) pool id =
    let (th, id') = thread_new id in start_threads n (thread_pool_add_thread pool th) id'

-- `thread_pool_loop` up to its management loop.
unfoldable pub pool_begin : ThreadPool → ℕ → ThreadPool × ℕ
unfolding start_threads
pool_begin pool id =
    let (started, id') = start_threads pool.min_threads pool id in
    (
      if ltb started.max_threads started.min_threads
          then record started { max_threads = started.min_threads }
          else started,
      id',
    )

-- a > b for signed integers of 64 bits.
unfoldable pub int64_gt : ℕ → ℕ → Bool
int64_gt a b = ltb ((b + 2 ^ 63) % u64_mod) ((a + 2 ^ 63) % u64_mod)

-- `pool->threads->stop = true`
unfoldable pub stop_first : List Thread → Option (List Thread)
stop_first [] = none
stop_first (t ∷ ts) = some (record t { stop = true } ∷ ts)

-- What a round of the management loop starts with: the pool, the counter of thread ids, and
-- `last_queue_count`.
pub record Managed : Type 0 where
  pub pool : ThreadPool
  pub id : ℕ
  pub last_queue_count : ℕ

-- A thread more or one less, by how the queue's size has changed since the last time.
unfoldable pub adjust : ℕ → Managed → Option Managed
unfolding thread_new thread_pool_add_thread int64_gt stop_first
adjust queue_size m =
    let pool = m.pool in
    let diff = (queue_size + u64_mod - m.last_queue_count) % u64_mod in
    let watermark = (pool.thread_count * pool.queue_factor) % u64_mod in
    if int64_gt diff watermark && ltb pool.thread_count pool.max_threads
    then (let (th, id) = thread_new m.id in
        some (record {
          pool = thread_pool_add_thread pool th;
          id = id;
          last_queue_count = queue_size;
        }))
    else if int64_gt ((u64_mod - diff) % u64_mod) watermark
        && ltb pool.min_threads pool.thread_count
    then (stop_first pool.threads >>= (λ threads.
        some
          (record m { pool = record pool { threads = threads }; last_queue_count = queue_size })))
    else some m

-- What pthread_tryjoin_np answers: 0, EBUSY, or another error.
pub data JoinResult : Type 0 where
  joined still_busy join_failed : JoinResult

-- The loop that removes finished threads goes over the threads that are there at its start.
unfoldable pub join_threads : (Thread → JoinResult) → List Thread → ThreadPool → Option ThreadPool
unfolding thread_pool_remove_thread
join_threads answer [] pool = some pool
join_threads answer (t ∷ ts) pool = elim (answer t) [
  | joined ↦ thread_pool_remove_thread pool t >>= (λ pool'. join_threads answer ts pool')
  | still_busy ↦ join_threads answer ts pool
  | join_failed ↦ none
]

unfoldable pub management_round : ℕ → (Thread → JoinResult) → Managed → Option Managed
unfolding adjust join_threads
management_round queue_size answer m = do
  adjusted ← adjust queue_size m
  pool ← join_threads answer adjusted.pool.threads adjusted.pool
  some (record adjusted { pool = pool })

-- The rounds until `shutdown`, each with the size of the queue and the answers of the joins.
unfoldable pub manage : List (ℕ × (Thread → JoinResult)) → Managed → Option Managed
unfolding management_round
manage [] m = some m
manage ((queue_size, answer) ∷ rounds) m =
    management_round queue_size answer m >>= (λ m'. manage rounds m')

-- Every thread is joined or cancelled, and is removed.
unfoldable pub remove_all : List Thread → ThreadPool → Option ThreadPool
unfolding thread_pool_remove_thread
remove_all [] pool = some pool
remove_all (t ∷ ts) pool = thread_pool_remove_thread pool t >>= (λ pool'. remove_all ts pool')

-- The second loop, with the size of the queue each time that it looks: whether it saw an empty queue
-- and went on.
unfoldable pub wait_empty : List ℕ → Bool
wait_empty [] = false
wait_empty (queue_size ∷ later) =
    let rest = wait_empty later in if ltb 0 queue_size then rest else true

-- How far `thread_pool_loop` gets.
pub data PoolRun : Type 0 where
  pool_fault : PoolRun
  still_waiting : ThreadPool → PoolRun
  pool_ended : ThreadPool → PoolRun

-- The end of `thread_pool_loop`: every thread is told to stop and removed.
unfoldable pub pool_end : ThreadPool → Option ThreadPool
unfolding remove_all
pool_end pool =
    let stopped = map (λ (t : Thread). record t { stop = true }) pool.threads in
    remove_all stopped (record pool { threads = stopped })

ended_run : Option ThreadPool → PoolRun
ended_run none = pool_fault
ended_run (some pool) = pool_ended pool

-- What follows the management loop: a wait until the queue is empty, then the end.
unfoldable pub pool_shutdown : List ℕ → Option Managed → PoolRun
unfolding wait_empty pool_end ended_run
pool_shutdown sizes none = pool_fault
pool_shutdown sizes (some m) =
    if wait_empty sizes then ended_run (pool_end m.pool) else still_waiting m.pool

-- `thread_pool_loop` of a pool that is told to shut down after these rounds, and then finds the queue
-- with these sizes.
unfoldable pub thread_pool_loop :
    List (ℕ × (Thread → JoinResult)) → List ℕ → ThreadPool → ℕ → PoolRun
unfolding pool_begin manage pool_shutdown
thread_pool_loop rounds sizes pool id =
    let (begun, id') = pool_begin pool id in
    pool_shutdown sizes (manage rounds (record { pool = begun; id = id'; last_queue_count = 0 }))
