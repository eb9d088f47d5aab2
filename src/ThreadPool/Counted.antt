-- ===== src/ThreadPool/Counted.antt =====
-- How many threads a pool of src/thread-pool.c has, from its start to its end.
use khttp.Common.{
  ℕ, ◌+◌, ◌-◌, ◌*◌, ◌%◌, ◌≤◌, ◌<◌, ◌≡◌, refl, ap, ◌∙◌, inl, inr, Bool, true, ◌&&◌, Option, some,
  List, ◌∷◌, arith, ltb, if_cases, List-cases, ◌>>=◌, length,
}
use khttp.Queue.{u64_mod}
use khttp.ThreadPool.{
  Thread, ThreadPool, thread_new, thread_pool_add_thread, JoinResult, Managed, adjust, stop_first,
  int64_gt, join_threads, management_round,
}
use khttp.ThreadPool.Joined.{IsCounted, NoFailure, join_threads-Cleaned}

-- The counter is right, and the threads are at most `max_threads`.
pub record Sound (pool : ThreadPool) : Type 0 where
  pub counted : IsCounted pool
  pub bounded : length pool.threads ≤ pool.max_threads
  pub max_fits : pool.max_threads < u64_mod

add_thread-Sound :
    (pool : ThreadPool) (th : Thread)
    → Sound pool
    → pool.thread_count < pool.max_threads
    → Sound (thread_pool_add_thread pool th)
unfolding thread_pool_add_thread
add_thread-Sound pool th s h = record {
  counted = record {
    counted = omega (arith, s.counted.counted, s.counted.fits, s.max_fits, h);
    fits = omega (arith, s.counted.counted, s.max_fits, h);
  };
  bounded = omega (arith, s.counted.counted, h);
  max_fits = s.max_fits;
}

stop_first-Sound :
    (pool : ThreadPool)
    → Sound pool
    → 0 < pool.thread_count
    → (threads : List Thread) × (stop_first pool.threads ≡ some threads)
      × Sound (record pool { threads = threads })
unfolding stop_first
stop_first-Sound pool s h = elim (List-cases pool.threads) [
  | inl e ↦ absurd (omega (arith, s.counted.counted, ap length e, h))
  | inr (t, ts, e) ↦
      let same : length pool.threads ≡ length (record t { stop = true } ∷ ts) = ap length e in
      (
        record t { stop = true } ∷ ts,
        ap stop_first e,
        record {
          counted = record {
            counted = s.counted.counted ∙ same;
            fits = omega (arith, s.counted.fits, same);
          };
          bounded = omega (arith, s.bounded, same);
          max_fits = s.max_fits;
        },
      )
]

and_ltb : (b : Bool) (x y : ℕ) → (b && ltb x y) ≡ true → x < y
and_ltb b x y h = ground (arith, h)

Adjusts : Managed → Option Managed → Type 0
Adjusts m o = (m' : Managed) × (o ≡ some m') × Sound m'.pool

adjust-Sound :
    (queue_size : ℕ) (m : Managed)
    → Sound m.pool
    → (m' : Managed) × (adjust queue_size m ≡ some m') × Sound m'.pool
unfolding adjust thread_new Adjusts
adjust-Sound queue_size m s =
    let pool = m.pool in
    let diff = (queue_size + u64_mod - m.last_queue_count) % u64_mod in
    let watermark = (pool.thread_count * pool.queue_factor) % u64_mod in
    let grows = int64_gt diff watermark in
    let shrinks = int64_gt ((u64_mod - diff) % u64_mod) watermark in
    let small = ltb pool.thread_count pool.max_threads in
    let large = ltb pool.min_threads pool.thread_count in
    if_cases (Adjusts m) (grows && small)
      (λ h.
        (_, refl, add_thread-Sound pool _ s (and_ltb grows pool.thread_count pool.max_threads h)))
      (λ h.
        if_cases (Adjusts m) (shrinks && large)
          (λ k.
            let (threads, found, sound) =
              stop_first-Sound pool s
                (omega (arith, and_ltb shrinks pool.min_threads pool.thread_count k)) in
            (
              record m { pool = record pool { threads = threads }; last_queue_count = queue_size },
              ap
                  (λ o. o >>= (λ ts. some (record m {
                    pool = record pool { threads = ts };
                    last_queue_count = queue_size;
                  })))
                  found,
              sound,
            ))
          (λ k. (m, refl, s)))

pub management_round-Sound :
    (queue_size : ℕ) (answer : Thread → JoinResult) (m : Managed)
    → NoFailure answer
    → Sound m.pool
    → (m' : Managed) × (management_round queue_size answer m ≡ some m') × Sound m'.pool
unfolding management_round
management_round-Sound queue_size answer m ok s =
    let (m1, ran1, s1) = adjust-Sound queue_size m s in
    let (pool, ran2, clean) =
      join_threads-Cleaned answer m1.pool.threads m1.pool ok s1.counted (λ id. omega arith) in
    (
      record m1 { pool = pool },
      ap
            (λ o. o >>= (λ a.
              join_threads answer a.pool.threads a.pool >>= (λ p. some (record a { pool = p }))))
            ran1
          ∙ ap (λ o. o >>= (λ p. some (record m1 { pool = p }))) ran2,
      record {
        counted = clean.sound;
        bounded = omega (arith, clean.no_more, clean.same_max, s1.bounded);
        max_fits = omega (arith, clean.same_max, s1.max_fits);
      },
    )
