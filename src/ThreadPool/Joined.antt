-- ===== src/ThreadPool/Joined.antt =====
-- Joining and removing threads in src/thread-pool.c.
use khttp.Common.{
  ℕ, ◌+◌, ◌-◌, ◌%◌, ◌≤◌, ◌<◌, ◌≡◌, refl, ap, ◌∙◌, ◌≢◌, ◌⊎◌, inl, inr, some, List, [], ◌∷◌, arith,
  ◌==◌, if◌then◌else◌, ==_iff, Bool-cases, ◌>>=◌, length,
}
use khttp.Queue.{u64_mod}
use khttp.ThreadPool.{
  Thread, ThreadPool, delete_thread, thread_pool_remove_thread, JoinResult, joined, still_busy,
  join_failed, join_threads,
}

-- The counter is the number of threads, and below 2^64.
pub record IsCounted (pool : ThreadPool) : Type 0 where
  pub counted : pool.thread_count ≡ length pool.threads
  pub fits : length pool.threads < u64_mod

-- How many threads have that id.
pub occurs : ℕ → List Thread → ℕ
occurs tid [] = 0
occurs tid (t ∷ ts) = let n = occurs tid ts in if t.tid == tid then n + 1 else n

-- A deletion finds a thread that is there, and takes off just one.
pub record Deleted (tid : ℕ) (ts rest : List Thread) : Type 0 where
  pub shorter : length ts ≡ length rest + 1
  pub fewer : (id : ℕ) → occurs id ts ≡ occurs id rest + (if tid == id then 1 else 0)

delete_thread-Deleted :
    (tid : ℕ) (ts : List Thread)
    → 0 < occurs tid ts
    → (rest : List Thread) × (delete_thread tid ts ≡ some rest) × Deleted tid ts rest
unfolding delete_thread occurs
delete_thread-Deleted tid [] h = absurd (omega arith)
delete_thread-Deleted tid (t ∷ ts) h = elim (Bool-cases (t.tid == tid)) [
  | inl e ↦ (ts, rw e refl, record { shorter = omega arith; fewer = λ id. ground (arith, e) })
  | inr e ↦
      let (rest, found, d) = delete_thread-Deleted tid ts (ground (arith, e, h)) in
      (
        t ∷ rest,
        ap (λ b. if b then some ts else (delete_thread tid ts >>= (λ r. some (t ∷ r)))) e
            ∙ ap (λ o. o >>= (λ r. some (t ∷ r))) found,
        record { shorter = omega (arith, d.shorter); fewer = λ id. ground (arith, d.fewer id) },
      )
]

-- A removal of a thread that is there keeps the counter right.
remove_thread-IsCounted :
    (pool : ThreadPool) (th : Thread)
    → IsCounted pool
    → 0 < occurs th.tid pool.threads
    → (pool' : ThreadPool) × (thread_pool_remove_thread pool th ≡ some pool')
      × IsCounted pool'
      × (pool'.max_threads ≡ pool.max_threads)
      × Deleted th.tid pool.threads pool'.threads
unfolding thread_pool_remove_thread
remove_thread-IsCounted pool th c h =
    let (rest, found, d) = delete_thread-Deleted th.tid pool.threads h in
    (
      record pool { threads = rest; thread_count = (pool.thread_count + u64_mod - 1) % u64_mod },
      ap
          (λ o. o >>= (λ threads. some (record pool {
            threads = threads;
            thread_count = (pool.thread_count + u64_mod - 1) % u64_mod;
          })))
          found,
      record {
        counted = omega (arith, c.counted, c.fits, d.shorter);
        fits = omega (arith, c.fits, d.shorter);
      },
      refl,
      d,
    )

-- The threads of a list are all there, as often as they are in the list.
abbrev Within : List Thread → List Thread → Type 0
Within ts all = (id : ℕ) → occurs id ts ≤ occurs id all

-- The counter is right, and the threads are not more than before.
pub record Cleaned (before after : ThreadPool) : Type 0 where
  pub sound : IsCounted after
  pub no_more : length after.threads ≤ length before.threads
  pub same_max : after.max_threads ≡ before.max_threads

abbrev pub NoFailure : (Thread → JoinResult) → Type 0
NoFailure answer = (t : Thread) → answer t ≢ join_failed

join_cases : (r : JoinResult) → (r ≡ joined) ⊎ ((r ≡ still_busy) ⊎ (r ≡ join_failed))
join_cases joined = inl refl
join_cases still_busy = inr (inl refl)
join_cases join_failed = inr (inr refl)

occurs_later : (id : ℕ) (t : Thread) (ts : List Thread) → occurs id ts ≤ occurs id (t ∷ ts)
unfolding occurs
occurs_later id t ts = ground arith

occurs_first : (t : Thread) (ts : List Thread) → 0 < occurs t.tid (t ∷ ts)
unfolding occurs
occurs_first t ts = ground (arith, (==_iff t.tid t.tid).1 refl)

pub join_threads-Cleaned :
    (answer : Thread → JoinResult) (ts : List Thread) (pool : ThreadPool)
    → NoFailure answer
    → IsCounted pool
    → Within ts pool.threads
    → (pool' : ThreadPool) × (join_threads answer ts pool ≡ some pool') × Cleaned pool pool'
unfolding join_threads occurs
join_threads-Cleaned answer [] pool ok c within =
    (pool, refl, record { sound = c; no_more = omega arith; same_max = refl })
join_threads-Cleaned answer (t ∷ ts) pool ok c within = elim (join_cases (answer t)) [
  | inr (inr failed) ↦ absurd (ok t failed)
  | inr (inl busy) ↦
      rw (busy, join_threads)
        (join_threads-Cleaned answer ts pool ok c
          (λ id. omega (arith, within id, occurs_later id t ts)))
  | inl gone ↦
      let (pool1, removed, c1, max1, d) =
        remove_thread-IsCounted pool t c (omega (arith, occurs_first t ts, within t.tid)) in
      let (pool2, ran, clean) =
        join_threads-Cleaned answer ts pool1 ok c1 (λ id. ground (arith, within id, d.fewer id)) in
      (
        pool2,
        rw (gone, join_threads) (ap (λ o. o >>= (λ p. join_threads answer ts p)) removed ∙ ran),
        record {
          sound = clean.sound;
          no_more = omega (arith, clean.no_more, d.shorter);
          same_max = clean.same_max ∙ max1;
        },
      )
]
