-- ===== src/Loop/Main/Known.antt =====
-- Which connections the items of the queues point to, in src/server-loop.c.
use khttp.Common.{
  ℕ, ◌≡◌, refl, sym, ap, ◌∙◌, inl, inr, Bool, true, false, not, ◌||◌, none, some, List, [], ◌∷◌,
  arith, ◌==◌, Bool-cases, if_cases, ◌>>=◌, All,
}
use mathlib.Core.Path.{subst}
use khttp.Queue.{Queue, QueueItem, queue_remove_byptr}
use khttp.Queue.ByPtr.{others, queue_remove_byptr_lem}
use khttp.Queue.Waiting.{waitptr_idle}
use khttp.Connection.{
  Connection, ServerPool, pool_read, pool_write, pool_worker, Pools, pool_queue, set_queue,
  skt_close,
}
use khttp.Loop.Main.{
  Interference, is_at, remove_from, wait_for, forget, clean_client, keep, clean_up,
}

abbrev pub is_client : List Connection → ℕ → Bool
is_client [] address = false
is_client (c ∷ cs) address = is_at address c || is_client cs address

-- Every item of every queue points to an address that the test holds of.
abbrev pub Pointing : (ℕ → Bool) → Pools → Type 0
Pointing known pools =
    (p : ServerPool) → All (λ (x : QueueItem). known x.ptr ≡ true) (pool_queue pools p).list

-- No thread has an item in its hands.
abbrev pub Idle : Pools → Type 0
Idle pools = (p : ServerPool) → (pool_queue pools p).processing ≡ []

-- No other thread touches the queues.
abbrev pub quiet : Interference
quiet = record { others = λ p pools. pools; states = λ p. [] }

pub All-map {ℓ} :
    {A : Type ℓ} {P Q : A → Type 0} (f : (x : A) → P x → Q x) (xs : List A) → All P xs → All Q xs
All-map f [] h = tt
All-map {P = P} {Q = Q} f (x ∷ xs) (px, h) = (f x px, All-map {P = P} {Q = Q} f xs h)

All-others :
    {P Q : QueueItem → Type 0} (ptr : ℕ) (xs : List QueueItem)
    → ((x : QueueItem) → (x.ptr == ptr) ≡ false → P x → Q x)
    → All P xs
    → All Q (others ptr xs)
All-others ptr [] f h = tt
All-others {P} {Q} ptr (x ∷ xs) f (px, h) =
    if_cases (All Q) (not (x.ptr == ptr))
      (λ e. (f x (ground (arith, e)) px, All-others {P = P} {Q = Q} ptr xs f h))
      (λ e. All-others {P = P} {Q = Q} ptr xs f h)

removed : ℕ → Pools → Pools
removed address pools =
    remove_from pool_worker address
      (remove_from pool_write address (remove_from pool_read address pools))

pool_queue-removed :
    (address : ℕ) (pools : Pools) (p : ServerPool)
    → pool_queue (removed address pools) p ≡ (queue_remove_byptr (pool_queue pools p) address).0
unfolding removed remove_from pool_queue set_queue
pool_queue-removed address pools pool_read = refl
pool_queue-removed address pools pool_write = refl
pool_queue-removed address pools pool_worker = refl

removed-Idle : (address : ℕ) (pools : Pools) → Idle pools → Idle (removed address pools)
removed-Idle address pools idle p =
    ap (λ q. q.processing) (pool_queue-removed address pools p)
    ∙ (queue_remove_byptr_lem (pool_queue pools p) address).1
    ∙ idle p

set_queue-same : (pools : Pools) (p : ServerPool) → set_queue pools p (pool_queue pools p) ≡ pools
unfolding set_queue pool_queue
set_queue-same pools pool_read = refl
set_queue-same pools pool_write = refl
set_queue-same pools pool_worker = refl

wait_for-quiet :
    (p : ServerPool) (address : ℕ) (pools : Pools)
    → Idle pools
    → wait_for quiet p address pools ≡ some pools
unfolding wait_for
wait_for-quiet p address pools idle =
    ap (λ o. o >>= (λ q. some (set_queue pools p q)))
      (waitptr_idle (pool_queue pools p) address (idle p))
    ∙ ap some (set_queue-same pools p)

forget-quiet :
    (address : ℕ) (pools : Pools)
    → Idle pools
    → forget quiet address pools ≡ some (removed address pools)
unfolding forget removed
forget-quiet address pools idle =
    let gone = removed address pools in
    let none_held = removed-Idle address pools idle in
    let wait = λ (p : ServerPool). wait_for-quiet p address gone none_held in
    ap
      (λ o. o >>= (λ r.
        wait_for quiet pool_write address r >>= (λ w. wait_for quiet pool_worker address w)))
      (wait pool_read)
    ∙ ap (λ o. o >>= (λ w. wait_for quiet pool_worker address w)) (wait pool_write)
    ∙ wait pool_worker

-- Neither closed nor in error.
abbrev pub Open : Connection → Type 0
Open c = (c.skt.closed ≡ false) × (c.skt.error ≡ false)

-- What is known apart from the connections of a list.
abbrev besides : (ℕ → Bool) → List Connection → ℕ → Bool
besides known cs address = known address || is_client cs address

removed-Pointing :
    (known : ℕ → Bool) (c : Connection) (cs : List Connection) (pools : Pools)
    → Pointing (besides known (c ∷ cs)) pools
    → Pointing (besides known cs) (removed c.address pools)
removed-Pointing known c cs pools h p =
    let q = pool_queue pools p in
    subst (All (λ (x : QueueItem). besides known cs x.ptr ≡ true))
      (sym (
        ap (λ (w : Queue). w.list) (pool_queue-removed c.address pools p)
        ∙ (queue_remove_byptr_lem q c.address).0))
      (All-others {P = λ (x : QueueItem). besides known (c ∷ cs) x.ptr ≡ true}
        {Q = λ (x : QueueItem). besides known cs x.ptr ≡ true} c.address q.list
        (λ x e k. ground (arith, e, k)) (h p))

-- The clean-up of one connection: it goes and nothing points to it, or it stays and is open.
data Cleaned (known : ℕ → Bool) (c : Connection) (cs : List Connection) (pools : Pools)
    : Type 0 where
  gone :
      clean_client quiet c pools ≡ some (none, removed c.address pools) → Cleaned known c cs pools
  stays :
      (c' : Connection)
      → clean_client quiet c pools ≡ some (some c', pools)
      → c'.address ≡ c.address
      → Open c'
      → Cleaned known c cs pools

clean_client-Cleaned :
    (known : ℕ → Bool) (c : Connection) (cs : List Connection) (pools : Pools)
    → Idle pools
    → Cleaned known c cs pools
unfolding clean_client skt_close
clean_client-Cleaned known c cs pools idle = elim (Bool-cases c.skt.error) [
  | inl bad ↦
      gone (rw (bad, clean_client) (rw (forget-quiet c.address pools idle, clean_client) refl))
  | inr fine ↦ elim (Bool-cases c.skt.closed) [
    | inl shut ↦ gone (
        rw (fine, clean_client)
          (rw (shut, clean_client) (rw (forget-quiet c.address pools idle, clean_client) refl)))
    | inr live ↦ stays c (rw (fine, clean_client) (rw (live, clean_client) refl)) refl (live, fine)
  ]
]

-- What the clean-up of a list of connections comes to.
record CleanedUp (known : ℕ → Bool) (cs : List Connection) (pools : Pools) : Type 0 where
  left : List Connection
  queues : Pools
  ran : clean_up quiet cs pools ≡ some (left, queues)
  pointing : Pointing (besides known left) queues
  held : Idle queues
  good : All Open left

moved :
    (known : ℕ → Bool) (c c' : Connection) (cs : List Connection) (pools : Pools)
    → c'.address ≡ c.address
    → Pointing (besides known (c ∷ cs)) pools
    → Pointing (besides (λ a. known a || (c'.address == a)) cs) pools
moved known c c' cs pools e h p =
    All-map (λ (x : QueueItem) k. ground (arith, e, k)) (pool_queue pools p).list (h p)

moved_back :
    (known : ℕ → Bool) (c : Connection) (cs : List Connection) (pools : Pools)
    → Pointing (besides (λ a. known a || (c.address == a)) cs) pools
    → Pointing (besides known (c ∷ cs)) pools
moved_back known c cs pools h p =
    All-map (λ (x : QueueItem) k. ground (arith, k)) (pool_queue pools p).list (h p)

clean_up-CleanedUp :
    (cs : List Connection) (known : ℕ → Bool) (pools : Pools)
    → Idle pools
    → Pointing (besides known cs) pools
    → CleanedUp known cs pools
unfolding clean_up
clean_up-CleanedUp [] known pools idle h = record {
  left = [];
  queues = pools;
  ran = refl;
  pointing = h;
  held = idle;
  good = tt;
}
clean_up-CleanedUp (c ∷ cs) known pools idle h = elim (clean_client-Cleaned known c cs pools idle) [
  | gone e ↦
      let next =
        clean_up-CleanedUp cs known (removed c.address pools) (removed-Idle c.address pools idle)
          (removed-Pointing known c cs pools h) in
      record {
        left = next.left;
        queues = next.queues;
        ran =
            ap (λ o. o >>= (λ r. clean_up quiet cs r.1 >>= (λ t. some (keep r.0 t.0, t.1)))) e
            ∙ ap (λ o. o >>= (λ t. some (keep none t.0, t.1))) next.ran;
        pointing = next.pointing;
        held = next.held;
        good = next.good;
      }
  | stays c' e same fine ↦
      let next =
        clean_up-CleanedUp cs (λ a. known a || (c'.address == a)) pools idle
          (moved known c c' cs pools same h) in
      record {
        left = c' ∷ next.left;
        queues = next.queues;
        ran =
            ap (λ o. o >>= (λ r. clean_up quiet cs r.1 >>= (λ t. some (keep r.0 t.0, t.1)))) e
            ∙ ap (λ o. o >>= (λ t. some (keep (some c') t.0, t.1))) next.ran;
        pointing = moved_back known c' next.left next.queues next.pointing;
        held = next.held;
        good = (fine, next.good);
      }
]

-- When every item of the queues points to a connection of the list, and no thread holds an item or
-- touches the queues meanwhile, the clean-up comes to an end and leaves only connections whose
-- socket is neither closed nor in error, and every item that is then in a queue points to one of
-- these: no item is left of a connection that was deleted.
pub clean_up-Pointing :
    (cs : List Connection) (pools : Pools)
    → Idle pools
    → Pointing (is_client cs) pools
    → (cs' : List Connection) × (pools' : Pools) × (clean_up quiet cs pools ≡ some (cs', pools'))
      × All Open cs'
      × Pointing (is_client cs') pools'
clean_up-Pointing cs pools idle h =
    let done = clean_up-CleanedUp cs (λ a. false) pools idle h in
    (done.left, done.queues, done.ran, done.good, done.pointing)
